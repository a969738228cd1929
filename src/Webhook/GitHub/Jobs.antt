-- ===== src/Webhook/GitHub/Jobs.antt =====
-- When a GitHub webhook makes a job, and which one.
use openclaw_relay.Base.{
  ◌≡◌, ◌≢◌, ◌⊎◌, inl, inr, sym, ap, ◌∙◌, true, false, some, List, [], ◌∷◌, arith, Bool-cases,
  Option-cases,
}
use openclaw_relay.Base.Str.{Str, ◌==◌, codes, eq_iff}
use openclaw_relay.Http.{Request, header, http_error}
use openclaw_relay.RateLimit.{Limiter, allow}
use openclaw_relay.Gateway.{Call}
use openclaw_relay.Config.{Config}
use openclaw_relay.Webhook.{GitHubPayload, Platform, Readings, quiet}
use openclaw_relay.Webhook.GitHub.{
  is_relevant, is_wanted, pr_number, conclusion, is_skipped, rate_limit_key, job_call, dispatch,
  is_forbidden, receive, serve_http,
}
use openclaw_relay.Webhook.GitHub.Events.{
  IsGenuine, is_forbidden-eq-false_iff, IsEvent, wanted_iff, is_skipped-eq-false_iff,
}

-- Why a request makes the job `call`.
pub record IsDispatch (p : Platform) (cfg : Config) (w : Readings) (l : Limiter) (r : Request)
    (call : Call) : Type 0 where
  pub body : Str
  pub posted : r.method ≡ codes "POST"
  pub readable : r.body ≡ some body
  pub genuine : IsGenuine p cfg r body
  pub kind : IsEvent (header r (codes "X-GitHub-Event")) (p.decode_github body).action
  pub reported :
      (cfg.github.notify_mode ≢ codes "failures")
      ⊎ (conclusion (p.decode_github body) ≢ codes "success")
  pub allowed :
      (allow w.seen w.since w.now
        (rate_limit_key (header r (codes "X-GitHub-Event")) (pr_number (p.decode_github body)))
        l).1
      ≡ true
  pub same : call ≡ job_call p cfg (header r (codes "X-GitHub-Event")) (p.decode_github body)

module _ (p : Platform) (cfg : Config) (w : Readings) (l : Limiter) where
  dispatch_sound :
      (event : Str) (payload : GitHubPayload) (call : Call) (rest : List Call)
      → (dispatch p cfg w l event payload).calls ≡ call ∷ rest
      → (is_wanted event payload.action ≡ true)
        × (is_skipped cfg payload ≡ false)
        × ((allow w.seen w.since w.now (rate_limit_key event (pr_number payload)) l).1 ≡ true)
        × (call ≡ job_call p cfg event payload)
        × (rest ≡ [])
  unfolding dispatch
  dispatch_sound event payload call rest h = elim (Bool-cases (is_wanted event payload.action)) [
    | inr unwanted ↦ absurd (ground arith)
    | inl wanted ↦ elim (Bool-cases (is_skipped cfg payload)) [
      | inl skipped ↦ absurd (ground arith)
      | inr reported ↦
          elim (Bool-cases
            (allow w.seen w.since w.now (rate_limit_key event (pr_number payload)) l).1) [
              | inr held ↦ absurd (ground arith)
              | inl allowed ↦ (wanted, reported, allowed, ground arith, ground arith)
            ]
    ]
  ]

  receive_sound :
      (r : Request) (body : Str) (call : Call) (rest : List Call)
      → r.method ≡ codes "POST"
      → r.body ≡ some body
      → (receive p cfg w l r body).calls ≡ call ∷ rest
      → IsDispatch p cfg w l r call × (rest ≡ [])
  unfolding receive
  receive_sound r body call rest posted readable h =
      let event = header r (codes "X-GitHub-Event") in
      let payload = p.decode_github body in
      elim (Bool-cases (is_forbidden p cfg r body)) [
        | inl forbidden ↦ absurd (ground arith)
        | inr genuine ↦ elim (Bool-cases (is_relevant event)) [
          | inr other ↦ absurd (ground arith)
          | inl relevant ↦
              let (wanted, reported, allowed, same, only) =
                dispatch_sound event payload call rest (rw (genuine, relevant, receive) at h) in
              (
                record {
                  body = body;
                  posted = posted;
                  readable = readable;
                  genuine = (is_forbidden-eq-false_iff p cfg r body).0 genuine;
                  kind = (wanted_iff event payload.action).0 relevant wanted;
                  reported = (is_skipped-eq-false_iff cfg payload).0 reported;
                  allowed = allowed;
                  same = same;
                },
                only,
              )
        ]
      ]

  serve_http_sound :
      (r : Request) (call : Call) (rest : List Call)
      → (serve_http p cfg w l r).calls ≡ call ∷ rest
      → IsDispatch p cfg w l r call × (rest ≡ [])
  unfolding serve_http
  serve_http_sound r call rest h = elim (Bool-cases (r.method == codes "POST")) [
    | inr other ↦ absurd (ground arith)
    | inl post ↦ elim (Option-cases r.body) [
      | inl unread ↦ absurd (ground arith)
      | inr (body, readable) ↦
          receive_sound r body call rest ((eq_iff _ _).0 post) readable
            (rw (post, readable, serve_http) at h)
    ]
  ]

  -- A request with all that a job needs is answered by `dispatch` behind all its tests.
  serve_http_passed :
      (r : Request) (call : Call) (d : IsDispatch p cfg w l r call)
      → ((serve_http p cfg w l r).calls
          ≡ job_call p cfg (header r (codes "X-GitHub-Event")) (p.decode_github d.body) ∷ [])
        × ((serve_http p cfg w l r).limiter
            ≡ (allow w.seen w.since w.now
                (rate_limit_key
                  (header r (codes "X-GitHub-Event"))
                  (pr_number (p.decode_github d.body)))
                l).0)
  unfolding serve_http receive dispatch
  serve_http_passed r call d =
      let event = header r (codes "X-GitHub-Event") in
      let payload = p.decode_github d.body in
      let genuine = (is_forbidden-eq-false_iff p cfg r d.body).1 d.genuine in
      let wanted = (wanted_iff event payload.action).1 d.kind in
      let reported = (is_skipped-eq-false_iff cfg payload).1 d.reported in
      ground (
        arith,
        eq_iff r.method (codes "POST"),
        d.posted,
        d.readable,
        genuine,
        wanted,
        reported,
        d.allowed,
      )

  -- A GitHub request makes a job exactly if it is a POST that can be read, is genuine, is of one of
  -- the three events with its action, is not a success that `notify_mode` leaves out, and passes the
  -- rate limit. It makes one job at most.
  pub serve_http-calls_github :
      (r : Request) (call : Call) (rest : List Call)
      → ((serve_http p cfg w l r).calls ≡ call ∷ rest → IsDispatch p cfg w l r call × (rest ≡ []))
        × (IsDispatch p cfg w l r call → (serve_http p cfg w l r).calls ≡ call ∷ [])
  serve_http-calls_github r call rest = (
    serve_http_sound r call rest,
    λ d. (serve_http_passed r call d).0 ∙ ap (λ c. c ∷ []) (sym d.same),
  )

  pub limiter-serve_http :
      (r : Request) (call : Call) (d : IsDispatch p cfg w l r call)
      → (serve_http p cfg w l r).limiter
        ≡ (allow w.seen w.since w.now
            (rate_limit_key
              (header r (codes "X-GitHub-Event"))
              (pr_number (p.decode_github d.body)))
            l).0
  limiter-serve_http r call d = (serve_http_passed r call d).1

  receive_forged :
      (r : Request) (body : Str)
      → ¬ IsGenuine p cfg r body
      → receive p cfg w l r body ≡ quiet l (http_error (codes "forbidden") 403)
  unfolding receive
  receive_forged r body forged = elim (Bool-cases (is_forbidden p cfg r body)) [
    | inl forbidden ↦ rw forbidden
    | inr genuine ↦ absurd (forged ((is_forbidden-eq-false_iff p cfg r body).0 genuine))
  ]

  -- A request that is not genuine leaves the limiter as it was and makes no job, whatever its method.
  -- A POST that can be read is answered 403.
  pub serve_http_forged_github :
      (r : Request)
      → ((body : Str) → r.body ≡ some body → ¬ IsGenuine p cfg r body)
      → ((serve_http p cfg w l r).limiter ≡ l)
        × ((serve_http p cfg w l r).calls ≡ [])
        × ((body : Str)
            → r.method ≡ codes "POST"
            → r.body ≡ some body
            → (serve_http p cfg w l r).response.status ≡ 403)
  unfolding serve_http
  serve_http_forged_github r forged = elim (Option-cases r.body) [
    | inl unread ↦ (ground arith, ground arith, λ body post e. absurd (ground arith))
    | inr (body, readable) ↦
        let denied = receive_forged r body (forged body readable) in
        (
          ground (arith, denied),
          ground (arith, denied),
          λ other post e.
              unfold http_error in ground (arith, denied, eq_iff r.method (codes "POST"), post),
        )
  ]
