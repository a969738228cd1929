-- ===== src/Webhook/Trello/Refusals.antt =====
-- Which Trello requests are refused, and with which status.
use openclaw_relay.Base.{
  ℕ, ◌≡◌, ◌≢◌, ◌⊎◌, inl, inr, refl, true, false, none, some, [], arith, Bool-cases, Option-cases,
}
use openclaw_relay.Base.Str.{Str, ◌==◌, codes, eq_iff, eq_of_ne, ne_of_test}
use openclaw_relay.Http.{Request, http_error, status_only}
use openclaw_relay.RateLimit.{Limiter, allow}
use openclaw_relay.Config.{Config, list_id_to_name}
use openclaw_relay.Webhook.{TrelloPayload, Platform, Readings, Served, quiet}
use openclaw_relay.Webhook.Trello.{
  find_rule, event_type, rate_limit_key, dispatch, is_forbidden, receive, serve_http,
}
use openclaw_relay.Webhook.Trello.Events.{post-ne-head, IsGenuine, is_forbidden-eq-false_iff}
use openclaw_relay.Webhook.Trello.Jobs.{receive_forged}

module _ (p : Platform) (cfg : Config) (w : Readings) (l : Limiter) where
  -- Why the request is refused, with the status of the answer.
  pub data Refusal (r : Request) : ℕ → Type 0 where
    wrong_method : r.method ≢ codes "HEAD" → r.method ≢ codes "POST" → Refusal r 405
    unreadable : r.method ≡ codes "POST" → r.body ≡ none → Refusal r 400
    forged :
        (body : Str)
        → r.method ≡ codes "POST"
        → r.body ≡ some body
        → ¬ IsGenuine p cfg r body
        → Refusal r 403

  status-dispatch :
      (payload : TrelloPayload) (event : Str)
      → (dispatch p cfg w l payload event).response.status ≡ 200
  unfolding dispatch status_only
  status-dispatch payload event =
      elim (Bool-cases (allow w.seen w.since w.now (rate_limit_key payload) l).1) [
        | inr held ↦ rw (held) refl
        | inl passed ↦
            elim (Option-cases (
              find_rule cfg.trello.rules event
                (list_id_to_name w.lists_again payload.list_after_id))) [
                  | inl unruled ↦ rw (passed, unruled) refl
                  | inr (rule, found) ↦ rw (passed, found) refl
                ]
      ]

  status-receive :
      (r : Request) (body : Str)
      → is_forbidden p cfg r body ≡ false
      → (receive p cfg w l r body).response.status ≡ 200
  unfolding receive status_only
  status-receive r body genuine = elim (Option-cases (p.decode_trello body)) [
    | inl failed ↦ rw (genuine, failed) refl
    | inr (payload, decoded) ↦ elim (Option-cases (event_type cfg w.lists payload)) [
      | inl ignored ↦ rw (genuine, decoded, ignored) refl
      | inr (event, kind) ↦ rw (genuine, decoded, kind) (status-dispatch payload event)
    ]
  ]

  abbrev IsRefused : Request → Served → Type 0
  IsRefused r served = Refusal r served.response.status × (served.limiter ≡ l) × (served.calls ≡ [])

  -- the handler's answer, for the statuses that refuse
  quiet-IsRefused :
      (r : Request) (msg : Str) (code : ℕ)
      → Refusal r code
      → serve_http p cfg w l r ≡ quiet l (http_error msg code)
      → IsRefused r (serve_http p cfg w l r)
  unfolding http_error
  quiet-IsRefused r msg code refusal e = rw (e) (refusal, refl, refl)

  post_form :
      (r : Request)
      → r.method ≡ codes "POST"
      → ((r.method == codes "HEAD") ≡ false) × ((r.method == codes "POST") ≡ true)
  post_form r post = ground (arith, post, post-ne-head, eq_iff r.method (codes "POST"))

  posted :
      (r : Request)
      → r.method ≡ codes "POST"
      → ((serve_http p cfg w l r).response.status ≡ 200) ⊎ IsRefused r (serve_http p cfg w l r)
  unfolding serve_http receive
  posted r post =
      let (other, is_post) = post_form r post in
      elim (Option-cases r.body) [
        | inl unread ↦ inr (
            quiet-IsRefused r (codes "bad request") 400 (unreadable post unread)
              (simp (serve_http, other, is_post, unread)))
        | inr (body, readable) ↦ elim (Bool-cases (is_forbidden p cfg r body)) [
          | inr genuine ↦ inl (rw (other, is_post, readable) (status-receive r body genuine))
          | inl bad ↦ inr (
              quiet-IsRefused r (codes "forbidden") 403
                (forged body post readable (λ genuine.
                  ground (arith, bad, (is_forbidden-eq-false_iff p cfg r body).1 genuine)))
                (simp (serve_http, other, is_post, readable, receive, bad)))
        ]
      ]

  either :
      (r : Request)
      → ((serve_http p cfg w l r).response.status ≡ 200) ⊎ IsRefused r (serve_http p cfg w l r)
  unfolding serve_http status_only
  either r = elim (Bool-cases (r.method == codes "HEAD")) [
    | inl head ↦ inl (rw (head) refl)
    | inr other ↦ elim (Bool-cases (r.method == codes "POST")) [
      | inl post ↦ posted r ((eq_iff _ _).0 post)
      | inr neither ↦ inr (
          quiet-IsRefused r (codes "method not allowed") 405
            (wrong_method (ne_of_test _ _ other) (ne_of_test _ _ neither))
            (simp (serve_http, other, neither)))
    ]
  ]

  refusal_status :
      (r : Request) (code : ℕ) → Refusal r code → (serve_http p cfg w l r).response.status ≡ code
  unfolding serve_http http_error
  refusal_status r code (wrong_method head post) =
      rw (eq_of_ne r.method (codes "HEAD") head, eq_of_ne r.method (codes "POST") post) refl
  refusal_status r code (unreadable post unread) =
      let (other, is_post) = post_form r post in rw (other, is_post, unread) refl
  refusal_status r code (forged body post readable bad) =
      let (other, is_post) = post_form r post in
      rw (other, is_post, readable, receive_forged p cfg w l r body bad) refl

  -- A Trello request is answered 200, or it is refused: with 405 for a method other than HEAD and POST,
  -- 400 for a body that cannot be read, and 403 for a signature that is not right. Each of these reasons
  -- gives this status, and a request that is refused leaves the limiter as it was and makes no job.
  pub serve_http-status_trello :
      (r : Request)
      → (((serve_http p cfg w l r).response.status ≡ 200)
          ⊎ (Refusal r (serve_http p cfg w l r).response.status
              × ((serve_http p cfg w l r).limiter ≡ l)
              × ((serve_http p cfg w l r).calls ≡ [])))
        × ((code : ℕ) → Refusal r code → (serve_http p cfg w l r).response.status ≡ code)
  serve_http-status_trello r = (either r, refusal_status r)
