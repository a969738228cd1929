-- ===== src/Webhook/Trello/Jobs.antt =====
-- When a Trello webhook makes a job, and which one.
use openclaw_relay.Base.{◌≡◌, inl, inr, true, some, List, [], ◌∷◌, arith, Bool-cases, Option-cases}
use openclaw_relay.Base.Str.{Str, ◌==◌, codes, eq_iff}
use openclaw_relay.Http.{Request, http_error}
use openclaw_relay.RateLimit.{Limiter, allow}
use openclaw_relay.Gateway.{Call}
use openclaw_relay.Config.{Config, TrelloRule, list_id_to_name}
use openclaw_relay.Webhook.{TrelloPayload, Platform, Readings, quiet}
use openclaw_relay.Webhook.Trello.{
  find_rule, event_type, rate_limit_key, job_call, dispatch, is_forbidden, receive, serve_http,
}
use openclaw_relay.Webhook.Trello.Events.{
  post-ne-head, IsGenuine, is_forbidden-eq-false_iff, IsEvent, event_type_sound,
  event_type_complete, IsFirstRule, find_rule_sound, find_rule_complete,
}

-- Why a request makes the job `call`.
pub record IsDispatch (p : Platform) (cfg : Config) (w : Readings) (l : Limiter) (r : Request)
    (call : Call) : Type 0 where
  pub body : Str
  pub payload : TrelloPayload
  pub event : Str
  pub rule : TrelloRule
  pub posted : r.method ≡ codes "POST"
  pub readable : r.body ≡ some body
  pub genuine : IsGenuine p cfg r body
  pub decoded : p.decode_trello body ≡ some payload
  pub kind : IsEvent cfg w.lists payload event
  pub allowed : (allow w.seen w.since w.now (rate_limit_key payload) l).1 ≡ true
  pub ruled :
      IsFirstRule event (list_id_to_name w.lists_again payload.list_after_id) cfg.trello.rules rule
  pub same : call ≡ job_call p payload event rule

module _ (p : Platform) (cfg : Config) (w : Readings) (l : Limiter) where
  dispatch_sound :
      (payload : TrelloPayload) (event : Str) (call : Call) (rest : List Call)
      → (dispatch p cfg w l payload event).calls ≡ call ∷ rest
      → (rule : TrelloRule) × ((allow w.seen w.since w.now (rate_limit_key payload) l).1 ≡ true)
        × (find_rule cfg.trello.rules event (list_id_to_name w.lists_again payload.list_after_id)
            ≡ some rule)
        × (call ≡ job_call p payload event rule)
        × (rest ≡ [])
  unfolding dispatch
  dispatch_sound payload event call rest h =
      elim (Bool-cases (allow w.seen w.since w.now (rate_limit_key payload) l).1) [
        | inr held ↦ absurd (ground arith)
        | inl allowed ↦
            elim (Option-cases (
              find_rule cfg.trello.rules event
                (list_id_to_name w.lists_again payload.list_after_id))) [
                  | inl missing ↦ absurd (ground arith)
                  | inr (rule, found) ↦ (rule, allowed, found, ground arith, ground arith)
                ]
      ]

  receive_sound :
      (r : Request) (body : Str) (call : Call) (rest : List Call)
      → r.method ≡ codes "POST"
      → r.body ≡ some body
      → (receive p cfg w l r body).calls ≡ call ∷ rest
      → IsDispatch p cfg w l r call × (rest ≡ [])
  unfolding receive
  receive_sound r body call rest posted readable h = elim (Bool-cases (is_forbidden p cfg r body)) [
    | inl forbidden ↦ absurd (ground arith)
    | inr genuine ↦ elim (Option-cases (p.decode_trello body)) [
      | inl failed ↦ absurd (ground arith)
      | inr (payload, decoded) ↦ elim (Option-cases (event_type cfg w.lists payload)) [
        | inl ignored ↦ absurd (ground arith)
        | inr (event, kind) ↦
            let (rule, allowed, found, same, only) =
              dispatch_sound payload event call rest (rw (genuine, decoded, kind, receive) at h) in
            (
              record {
                body = body;
                payload = payload;
                event = event;
                rule = rule;
                posted = posted;
                readable = readable;
                genuine = (is_forbidden-eq-false_iff p cfg r body).0 genuine;
                decoded = decoded;
                kind = event_type_sound cfg w.lists payload event kind;
                allowed = allowed;
                ruled = find_rule_sound cfg.trello.rules event _ rule found;
                same = same;
              },
              only,
            )
      ]
    ]
  ]

  serve_http_sound :
      (r : Request) (call : Call) (rest : List Call)
      → (serve_http p cfg w l r).calls ≡ call ∷ rest
      → IsDispatch p cfg w l r call × (rest ≡ [])
  unfolding serve_http
  serve_http_sound r call rest h = elim (Bool-cases (r.method == codes "HEAD")) [
    | inl head ↦ absurd (ground arith)
    | inr other ↦ elim (Bool-cases (r.method == codes "POST")) [
      | inr neither ↦ absurd (ground arith)
      | inl post ↦ elim (Option-cases r.body) [
        | inl unread ↦ absurd (ground arith)
        | inr (body, readable) ↦
            receive_sound r body call rest ((eq_iff _ _).0 post) readable
              (rw (other, post, readable, serve_http) at h)
      ]
    ]
  ]

  serve_http_complete :
      (r : Request) (call : Call)
      → IsDispatch p cfg w l r call
      → (serve_http p cfg w l r).calls ≡ call ∷ []
  unfolding serve_http receive dispatch
  serve_http_complete r call d =
      let genuine = (is_forbidden-eq-false_iff p cfg r d.body).1 d.genuine in
      let kind = event_type_complete d.kind in
      let found = find_rule_complete d.ruled in
      ground (
        arith,
        post-ne-head,
        eq_iff r.method (codes "POST"),
        d.posted,
        d.readable,
        genuine,
        d.decoded,
        kind,
        d.allowed,
        found,
        d.same,
      )

  -- A Trello request makes a job exactly if it is a POST that can be read, is genuine and decoded, is
  -- of an event, passes the rate limit, and has a rule; the job is that of the first such rule. It
  -- makes one job at most.
  pub serve_http-calls_trello :
      (r : Request) (call : Call) (rest : List Call)
      → ((serve_http p cfg w l r).calls ≡ call ∷ rest → IsDispatch p cfg w l r call × (rest ≡ []))
        × (IsDispatch p cfg w l r call → (serve_http p cfg w l r).calls ≡ call ∷ [])
  serve_http-calls_trello r call rest = (serve_http_sound r call rest, serve_http_complete r call)

  pub receive_forged :
      (r : Request) (body : Str)
      → ¬ IsGenuine p cfg r body
      → receive p cfg w l r body ≡ quiet l (http_error (codes "forbidden") 403)
  unfolding receive
  receive_forged r body forged = elim (Bool-cases (is_forbidden p cfg r body)) [
    | inl forbidden ↦ rw forbidden
    | inr genuine ↦ absurd (forged ((is_forbidden-eq-false_iff p cfg r body).0 genuine))
  ]

  -- A request that is not genuine leaves the limiter as it was and makes no job, whatever its method.
  -- A POST that can be read is answered 403.
  pub serve_http_forged_trello :
      (r : Request)
      → ((body : Str) → r.body ≡ some body → ¬ IsGenuine p cfg r body)
      → ((serve_http p cfg w l r).limiter ≡ l)
        × ((serve_http p cfg w l r).calls ≡ [])
        × ((body : Str)
            → r.method ≡ codes "POST"
            → r.body ≡ some body
            → (serve_http p cfg w l r).response.status ≡ 403)
  unfolding serve_http
  serve_http_forged_trello r forged = elim (Option-cases r.body) [
    | inl unread ↦ (ground arith, ground arith, λ body post e. absurd (ground arith))
    | inr (body, readable) ↦
        let denied = receive_forged r body (forged body readable) in
        (
          ground (arith, denied),
          ground (arith, denied),
          λ other post e.
              unfold http_error in
              ground (arith, denied, post-ne-head, eq_iff r.method (codes "POST"), post),
        )
  ]
