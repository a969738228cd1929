-- ===== src/Webhook/GitHub/Limits.antt =====
-- The key for which a GitHub request of internal/webhook/github.go asks the rate limiter.
use openclaw_relay.Base.{
  inl, inr, refl, not, Option, none, some, if◌then◌else◌, Bool-cases, Option-cases,
}
use openclaw_relay.Base.Str.{Str, ◌==◌, codes}
use openclaw_relay.Http.{Request, header}
use openclaw_relay.RateLimit.{Limiter, allow}
use openclaw_relay.Config.{Config}
use openclaw_relay.Webhook.{Platform, Readings, GitHubPayload}
use openclaw_relay.Webhook.Moves.{IsMove}
use openclaw_relay.Webhook.GitHub.{
  is_relevant, is_wanted, is_skipped, pr_number, rate_limit_key, dispatch, is_forbidden, receive,
  serve_http,
}
use openclaw_relay.Webhook.GitHub.Replay.{rate_limit_key-ne-nil}

module _ (p : Platform) (cfg : Config) (w : Readings) (l : Limiter) (r : Request) where
  abbrev event : Str
  event = header r (codes "X-GitHub-Event")

  abbrev key_for : GitHubPayload → Option Str
  key_for payload =
      if not (is_wanted event payload.action)
      then none
      else if is_skipped cfg payload
      then none
      else some (rate_limit_key event (pr_number payload))

  -- The key that the GitHub handler asks the limiter about, if it gets that far.
  abbrev pub github_key : Option Str
  github_key = if not (r.method == codes "POST") then none else elim r.body [
    | none ↦ none
    | some body ↦
        if is_forbidden p cfg r body
        then none
        else if not (is_relevant event)
        then none
        else key_for (p.decode_github body)
  ]

  dispatch-IsMove :
      (payload : GitHubPayload)
      → IsMove w l (key_for payload) (dispatch p cfg w l event payload).limiter
  unfolding dispatch
  dispatch-IsMove payload = elim (Bool-cases (is_wanted event payload.action)) [
    | inr unwanted ↦ inl (rw (unwanted) refl)
    | inl wanted ↦ elim (Bool-cases (is_skipped cfg payload)) [
      | inl skipped ↦ inl (rw (wanted, skipped) refl)
      | inr told ↦ inr (
        rate_limit_key event (pr_number payload),
        rw (wanted, told) refl,
        rate_limit_key-ne-nil event (pr_number payload),
        elim (Bool-cases
            (allow w.seen w.since w.now (rate_limit_key event (pr_number payload)) l).1) [
              | inl passed ↦ rw (wanted, told, passed) refl
              | inr held ↦ rw (wanted, told, held) refl
            ],
      )
    ]
  ]

  pub github-IsMove : IsMove w l github_key (serve_http p cfg w l r).limiter
  unfolding serve_http receive
  github-IsMove = elim (Bool-cases (r.method == codes "POST")) [
    | inr other ↦ inl (rw (other) refl)
    | inl post ↦ elim (Option-cases r.body) [
      | inl unread ↦ inl (rw (post, unread) refl)
      | inr (body, readable) ↦ elim (Bool-cases (is_forbidden p cfg r body)) [
        | inl bad ↦ inl (rw (post, readable, bad) refl)
        | inr good ↦ elim (Bool-cases (is_relevant event)) [
          | inr irrelevant ↦ inl (rw (post, readable, good, irrelevant) refl)
          | inl relevant ↦
              rw (post, readable, good, relevant) (dispatch-IsMove (p.decode_github body))
        ]
      ]
    ]
  ]
