-- ===== src/Server/Traffic.antt =====
-- How many requests to the gateway the requests to the server of internal/server/server.go lead to.
use mathlib.Core.Path.{subst}
use openclaw_relay.Base.{
  ℕ, suc, ◌+◌, ◌*◌, ◌≤◌, ◌≡◌, refl, sym, ap, ◌∙◌, Bool, ◌&&◌, ◌||◌, List, [], ◌∷◌, arith,
  if◌then◌else◌, length, length-append, inl, inr, Bool-cases, ◌⊎◌,
}
use openclaw_relay.Base.Int.{ℤ}
use openclaw_relay.Base.Str.{Str, ◌==◌, codes, eq_iff}
use openclaw_relay.Http.{Request}
use openclaw_relay.Gateway.{
  Client, Call, Outcome, one_shot_job, one_shot_job_for_agent, perform, create_one_shot_job,
}
use openclaw_relay.Gateway.Runs.{requests}
use openclaw_relay.Gateway.Retry.{create_one_shot_job_for_agent_bounds}
use openclaw_relay.Webhook.Trello
use openclaw_relay.Webhook.GitHub
use openclaw_relay.Webhook.Trello.Jobs.{serve_http-calls_trello}
use openclaw_relay.Webhook.GitHub.Jobs.{serve_http-calls_github}
use openclaw_relay.Mux.{route, ends_in_slash}
use openclaw_relay.Mux.Matches.{Matches}
use openclaw_relay.Server.{
  Server, Site, Route, OauthSetup, routes, trello, github, google_root, google_login,
  google_callback, google_logout,
}
use openclaw_relay.Server.Handlers.{
  World, Moment, Handled, serve_route, guarded, logged, serve, serve_all,
}
use openclaw_relay.Server.Routes.{exact_path, path_of, reached-Matches, guarded_by_route}
use openclaw_relay.Server.Jobs.{after_login-jobs}

-- The requests that the client sends for calls in a row; each call has a transport of its own.
abbrev pub posts : (ℕ → ℕ → Outcome) → (ℤ → Str) → Client → ℕ → List Call → ℕ
posts transport at c i [] = 0
posts transport at c i (call ∷ calls) =
    requests (perform (transport i) at c call).events + posts transport at c (suc i) calls

requests-perform :
    (transport : ℕ → Outcome) (at : ℤ → Str) (c : Client) (call : Call)
    → requests (perform transport at c call).events ≤ 4
unfolding perform create_one_shot_job
requests-perform transport at c (one_shot_job name message timeout delay) =
    (create_one_shot_job_for_agent_bounds transport at c name message [] timeout delay).0
requests-perform transport at c (one_shot_job_for_agent name message agent timeout delay) =
    (create_one_shot_job_for_agent_bounds transport at c name message agent timeout delay).0

posts_bound :
    (transport : ℕ → ℕ → Outcome) (at : ℤ → Str) (c : Client) (i : ℕ) (calls : List Call)
    → posts transport at c i calls ≤ 4 * length calls
posts_bound transport at c i [] = omega arith
posts_bound transport at c i (call ∷ calls) =
    omega
      (arith, requests-perform (transport i) at c call, posts_bound transport at c (suc i) calls)

-- A request that may be a webhook.
unfoldable pub is_hook : Request → Bool
is_hook r =
    r.method == codes "POST"
    && (r.path == codes "/webhook/trello" || r.path == codes "/webhook/github")

-- How many of the requests are.
abbrev pub hooks : List (Moment × Request) → ℕ
hooks [] = 0
hooks ((w, r) ∷ rest) = (if is_hook r then 1 else 0) + hooks rest

-- A handler that makes a job for a POST request alone, and then one, on the path of a webhook.
one_job :
    (r : Request) (calls : List Call)
    → (r.path ≡ codes "/webhook/trello") ⊎ (r.path ≡ codes "/webhook/github")
    → ((job : Call) (rest : List Call)
        → calls ≡ job ∷ rest
        → (r.method ≡ codes "POST") × (rest ≡ []))
    → length calls ≤ (if is_hook r then 1 else 0)
unfolding is_hook
one_job r [] at h = omega arith
one_job r (job ∷ rest) at h =
    let (posted, only) = h job rest refl in
    let post = (eq_iff r.method (codes "POST")).1 posted in
    elim at [
      | inl trello_path ↦
          rw (only, post, (eq_iff r.path (codes "/webhook/trello")).1 trello_path) (omega arith)
      | inr github_path ↦ elim (Bool-cases (r.path == codes "/webhook/trello")) [
        | inl same ↦ rw (only, post, same) (omega arith)
        | inr other ↦
            rw (only, post, other, (eq_iff r.path (codes "/webhook/github")).1 github_path)
              (omega arith)
      ]
    ]

module _ (u : World) (site : Site) where
  -- the room that a request has for jobs
  abbrev Room : Request → List Call → List Call → Type 0
  Room r before after = length after ≤ length before + (if is_hook r then 1 else 0)

  Room-same : (r : Request) (before after : List Call) → after ≡ before → Room r before after
  Room-same r before after e = omega (arith, ap length e)

  serve_route-Room :
      (w : Moment) (r : Request) (s : Server) (at : Route)
      → Matches (path_of at) r.path
      → Room r s.jobs (serve_route u site.cfg w at r s).0.jobs
  unfolding serve_route
  serve_route-Room w r s trello fits =
      let path =
        exact_path (codes "/webhook/trello") r.path (unfold ends_in_slash codes in refl) fits in
      let calls = (Trello.serve_http u.platform site.cfg w.readings s.limiter r).calls in
      omega (
        arith,
        length-append s.jobs calls,
        one_job r calls (inl path) (λ job rest e.
            let found =
              (serve_http-calls_trello u.platform site.cfg w.readings s.limiter r job rest).0 e in
            (found.0.posted, found.1)),
      )
  serve_route-Room w r s github fits =
      let path =
        exact_path (codes "/webhook/github") r.path (unfold ends_in_slash codes in refl) fits in
      let calls = (GitHub.serve_http u.platform site.cfg w.readings s.limiter r).calls in
      omega (
        arith,
        length-append s.jobs calls,
        one_job r calls (inr path) (λ job rest e.
            let found =
              (serve_http-calls_github u.platform site.cfg w.readings s.limiter r job rest).0 e in
            (found.0.posted, found.1)),
      )
  serve_route-Room w r s google_root fits = Room-same r s.jobs _ (after_login-jobs u site.cfg s _)
  serve_route-Room w r s google_login fits = Room-same r s.jobs _ (after_login-jobs u site.cfg s _)
  serve_route-Room w r s google_callback fits =
      Room-same r s.jobs _ (after_login-jobs u site.cfg s _)
  serve_route-Room w r s google_logout fits = Room-same r s.jobs _ (after_login-jobs u site.cfg s _)
  serve_route-Room w r s at fits = omega arith

  jobs-logged : (w : Moment) (r : Request) (h : Handled) → (logged u site w r h).0.jobs ≡ h.0.jobs
  unfolding logged
  jobs-logged w r (s, answer) = ground arith

  module _ (setup : OauthSetup) (table : site.table ≡ routes site.cfg setup) where
    serve-Room : (w : Moment) (r : Request) (s : Server) → Room r s.jobs (serve u site w r s).0.jobs
    unfolding serve
    serve-Room w r s = subst (Room r s.jobs) (sym (jobs-logged w r (guarded u site w r s))) (
        guarded_by_route u site w r s (λ s'. Room r s.jobs s'.jobs) (Room-same r s.jobs s.jobs refl)
          (λ at reached.
            serve_route-Room w r s at
              (reached-Matches site.cfg setup r at (ap (λ t. route t r) (sym table) ∙ reached))))

    serve_all-Room :
        (requests : List (Moment × Request)) (s : Server)
        → length (serve_all u site requests s).jobs ≤ length s.jobs + hooks requests
    unfolding serve_all
    serve_all-Room [] s = omega arith
    serve_all-Room ((w, r) ∷ requests) s =
        omega (arith, serve-Room w r s, serve_all-Room requests (serve u site w r s).0)

    -- The requests that the relay takes make it send the gateway at most four requests for each of those
    -- that are POST requests for the path of a webhook, whatever the gateway answers, and none for the
    -- others: from a server without jobs, where each job's requests have outcomes of their own.
    pub serve_all-posts :
        (requests : List (Moment × Request)) (s : Server) (transport : ℕ → ℕ → Outcome)
        (at : ℤ → Str) (c : Client)
        → s.jobs ≡ []
        → posts transport at c 0 (serve_all u site requests s).jobs ≤ 4 * hooks requests
    serve_all-posts requests s transport at c new = omega (
      arith,
      posts_bound transport at c 0 (serve_all u site requests s).jobs,
      serve_all-Room requests s,
      ap length new,
    )
