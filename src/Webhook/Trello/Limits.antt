-- ===== src/Webhook/Trello/Limits.antt =====
-- The key for which a Trello request of internal/webhook/trello.go asks the rate limiter.
use openclaw_relay.Base.{
  ◌≡◌, inl, inr, refl, not, Option, none, some, if◌then◌else◌, Bool-cases, Option-cases,
}
use openclaw_relay.Base.Str.{Str, ◌==◌, codes}
use openclaw_relay.Http.{Request}
use openclaw_relay.RateLimit.{Limiter, allow}
use openclaw_relay.Config.{Config, list_id_to_name}
use openclaw_relay.Webhook.{Platform, Readings, TrelloPayload}
use openclaw_relay.Webhook.Moves.{IsMove}
use openclaw_relay.Webhook.Trello.{
  find_rule, event_type, rate_limit_key, dispatch, is_forbidden, receive, serve_http,
}
use openclaw_relay.Webhook.Trello.Replay.{rate_limit_key-ne-nil}

module _ (p : Platform) (cfg : Config) (w : Readings) (l : Limiter) (r : Request) where
  -- The key that the Trello handler asks the limiter about, if it gets that far.
  abbrev pub trello_key : Option Str
  trello_key = if not (r.method == codes "POST") then none else elim r.body [
    | none ↦ none
    | some body ↦ if is_forbidden p cfg r body then none else elim (p.decode_trello body) [
      | none ↦ none
      | some payload ↦ elim (event_type cfg w.lists payload) [
        | none ↦ none
        | some event ↦ some (rate_limit_key payload)
      ]
    ]
  ]

  limiter-dispatch_trello :
      (payload : TrelloPayload) (event : Str)
      → (dispatch p cfg w l payload event).limiter
        ≡ (allow w.seen w.since w.now (rate_limit_key payload) l).0
  unfolding dispatch
  limiter-dispatch_trello payload event =
      elim (Bool-cases (allow w.seen w.since w.now (rate_limit_key payload) l).1) [
        | inr held ↦ rw (held) refl
        | inl passed ↦
            elim (Option-cases (
              find_rule cfg.trello.rules event
                (list_id_to_name w.lists_again payload.list_after_id))) [
                  | inl unruled ↦ rw (passed, unruled) refl
                  | inr (rule, ruled) ↦ rw (passed, ruled) refl
                ]
      ]

  pub trello-IsMove : IsMove w l trello_key (serve_http p cfg w l r).limiter
  unfolding serve_http receive
  trello-IsMove = elim (Bool-cases (r.method == codes "HEAD")) [
    | inl head ↦ inl (rw (head) refl)
    | inr other ↦ elim (Bool-cases (r.method == codes "POST")) [
      | inr neither ↦ inl (rw (other, neither) refl)
      | inl post ↦ elim (Option-cases r.body) [
        | inl unread ↦ inl (rw (other, post, unread) refl)
        | inr (body, readable) ↦ elim (Bool-cases (is_forbidden p cfg r body)) [
          | inl bad ↦ inl (rw (other, post, readable, bad) refl)
          | inr good ↦ elim (Option-cases (p.decode_trello body)) [
            | inl failed ↦ inl (rw (other, post, readable, good, failed) refl)
            | inr (payload, decoded) ↦ elim (Option-cases (event_type cfg w.lists payload)) [
              | inl ignored ↦ inl (rw (other, post, readable, good, decoded, ignored) refl)
              | inr (event, kind) ↦ inr (
                rate_limit_key payload,
                rw (post, readable, good, decoded, kind) refl,
                rate_limit_key-ne-nil payload,
                rw (other, post, readable, good, decoded, kind)
                    (limiter-dispatch_trello payload event),
              )
            ]
          ]
        ]
      ]
    ]
  ]
