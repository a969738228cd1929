-- ===== src/Server/Jobs.antt =====
-- Where the jobs that the server of internal/server/server.go gives to the gateway come from.
use mathlib.Core.Path.{subst}
use openclaw_relay.Auth.Google.{GoogleAuth, Reply}
use openclaw_relay.Base.{
  All-map, ◌≡◌, ◌⊎◌, inl, inr, refl, sym, ap, ◌∙◌, List, [], ◌∷◌, ◌++◌, arith, Option-cases, All,
  All-append, append_assoc, append-nil,
}
use openclaw_relay.Base.Str.{codes}
use openclaw_relay.Http.{Request}
use openclaw_relay.RateLimit.{Limiter}
use openclaw_relay.Gateway.{Call}
use openclaw_relay.Config.{Config}
use openclaw_relay.Webhook.Trello
use openclaw_relay.Webhook.GitHub
use openclaw_relay.Webhook.Trello.Jobs.{serve_http-calls_trello}
use openclaw_relay.Webhook.GitHub.Jobs.{serve_http-calls_github}
use openclaw_relay.Mux.{route, ends_in_slash}
use openclaw_relay.Mux.Matches.{Matches}
use openclaw_relay.Server.{
  Server, Site, Route, OauthSetup, routes, trello, github, google_root, google_login,
  google_callback, google_logout,
}
use openclaw_relay.Server.Handlers.{
  World, Moment, Handled, serve_route, guarded, logged, serve, serve_all, after_login,
}
use openclaw_relay.Server.Routes.{exact_path, path_of, reached-Matches, guarded_by_route}

module _ (u : World) (cfg : Config) where
  -- The webhook request that makes the job: its path is that of the webhook, and all that the handler
  -- asks for holds.
  pub data IsWebhook (w : Moment) (r : Request) (job : Call) : Type 0 where
    by_trello :
        (l : Limiter)
        → r.path ≡ codes "/webhook/trello"
        → Trello.Jobs.IsDispatch u.platform cfg w.readings l r job
        → IsWebhook w r job
    by_github :
        (l : Limiter)
        → r.path ≡ codes "/webhook/github"
        → GitHub.Jobs.IsDispatch u.platform cfg w.readings l r job
        → IsWebhook w r job

  -- One of the requests makes the job.
  abbrev pub Makes : List (Moment × Request) → Call → Type 0
  Makes [] job = ⊥
  Makes ((w, r) ∷ requests) job = IsWebhook w r job ⊎ Makes requests job

  -- what is handled adds jobs for which `P` holds
  record Adds (P : Call → Type 0) (s s' : Server) : Type 0 where
    jobs : List Call
    added : s'.jobs ≡ s.jobs ++ jobs
    fit : All P jobs

  Adds-same : (P : Call → Type 0) (s s' : Server) → s'.jobs ≡ s.jobs → Adds P s s'
  Adds-same P s s' e = record { jobs = []; added = e ∙ sym (append-nil s.jobs); fit = tt }

  trello_calls :
      (w : Moment) (l : Limiter) (r : Request)
      → r.path ≡ codes "/webhook/trello"
      → All (IsWebhook w r) (Trello.serve_http u.platform cfg w.readings l r).calls
  trello_calls w l r at = of_calls (Trello.serve_http u.platform cfg w.readings l r).calls refl
    where
      of_calls :
          (calls : List Call)
          → (Trello.serve_http u.platform cfg w.readings l r).calls ≡ calls
          → All (IsWebhook w r) calls
      of_calls [] e = tt
      of_calls (job ∷ rest) e =
          let (made, only) = (serve_http-calls_trello u.platform cfg w.readings l r job rest).0 e in
          (by_trello l at made, subst (All (IsWebhook w r)) (sym only) tt)

  github_calls :
      (w : Moment) (l : Limiter) (r : Request)
      → r.path ≡ codes "/webhook/github"
      → All (IsWebhook w r) (GitHub.serve_http u.platform cfg w.readings l r).calls
  github_calls w l r at = of_calls (GitHub.serve_http u.platform cfg w.readings l r).calls refl
    where
      of_calls :
          (calls : List Call)
          → (GitHub.serve_http u.platform cfg w.readings l r).calls ≡ calls
          → All (IsWebhook w r) calls
      of_calls [] e = tt
      of_calls (job ∷ rest) e =
          let (made, only) = (serve_http-calls_github u.platform cfg w.readings l r job rest).0 e in
          (by_github l at made, subst (All (IsWebhook w r)) (sym only) tt)

  pub after_login-jobs :
      (s : Server) (handler : GoogleAuth → GoogleAuth × Reply)
      → (after_login s handler).0.jobs ≡ s.jobs
  after_login-jobs s handler = elim (Option-cases s.google) [
    | inl lacking ↦ rw (lacking) refl
    | inr (g, there) ↦ rw (there) refl
  ]

  serve_route-Adds :
      (w : Moment) (r : Request) (s : Server) (at : Route)
      → Matches (path_of at) r.path
      → Adds (IsWebhook w r) s (serve_route u cfg w at r s).0
  unfolding serve_route
  serve_route-Adds w r s trello fits = record {
    jobs = (Trello.serve_http u.platform cfg w.readings s.limiter r).calls;
    added = refl;
    fit =
        trello_calls w s.limiter r
          (exact_path (codes "/webhook/trello") r.path (unfold ends_in_slash codes in refl) fits);
  }
  serve_route-Adds w r s github fits = record {
    jobs = (GitHub.serve_http u.platform cfg w.readings s.limiter r).calls;
    added = refl;
    fit =
        github_calls w s.limiter r
          (exact_path (codes "/webhook/github") r.path (unfold ends_in_slash codes in refl) fits);
  }
  serve_route-Adds w r s google_root fits = Adds-same _ s _ (after_login-jobs s _)
  serve_route-Adds w r s google_login fits = Adds-same _ s _ (after_login-jobs s _)
  serve_route-Adds w r s google_callback fits = Adds-same _ s _ (after_login-jobs s _)
  serve_route-Adds w r s google_logout fits = Adds-same _ s _ (after_login-jobs s _)
  serve_route-Adds w r s at fits = Adds-same _ s _ refl

module _ (u : World) (site : Site) (setup : OauthSetup)
    (table : site.table ≡ routes site.cfg setup) where
  guarded-Adds :
      (w : Moment) (r : Request) (s : Server)
      → Adds u site.cfg (IsWebhook u site.cfg w r) s (guarded u site w r s).0
  guarded-Adds w r s =
      guarded_by_route u site w r s (Adds u site.cfg (IsWebhook u site.cfg w r) s)
        (Adds-same u site.cfg _ s s refl)
        (λ at reached.
          serve_route-Adds u site.cfg w r s at
            (reached-Matches site.cfg setup r at (ap (λ t. route t r) (sym table) ∙ reached)))

  jobs-logged : (w : Moment) (r : Request) (h : Handled) → (logged u site w r h).0.jobs ≡ h.0.jobs
  unfolding logged
  jobs-logged w r (s, answer) = ground arith

  serve-Adds :
      (w : Moment) (r : Request) (s : Server)
      → Adds u site.cfg (IsWebhook u site.cfg w r) s (serve u site w r s).0
  unfolding serve
  serve-Adds w r s =
      let adds = guarded-Adds w r s in
      record {
        jobs = adds.jobs;
        added = jobs-logged w r (guarded u site w r s) ∙ adds.added;
        fit = adds.fit;
      }

  -- Whatever requests the server takes, it gives no job to the gateway but those that the webhook handlers
  -- make of them: each job is that of a request for the path of a webhook, whose signature is right or
  -- needs none, and that its handler has let through.
  pub serve_all-jobs :
      (requests : List (Moment × Request)) (s : Server)
      → (jobs : List Call) × ((serve_all u site requests s).jobs ≡ s.jobs ++ jobs)
        × All (Makes u site.cfg requests) jobs
  unfolding serve_all
  serve_all-jobs [] s = ([], sym (append-nil s.jobs), tt)
  serve_all-jobs ((w, r) ∷ requests) s =
      let adds = serve-Adds w r s in
      let (jobs, added, fit) = serve_all-jobs requests (serve u site w r s).0 in
      (
        adds.jobs ++ jobs,
        added ∙ ap (λ j. j ++ jobs) adds.added ∙ append_assoc s.jobs adds.jobs jobs,
        All-append (Makes u site.cfg ((w, r) ∷ requests)) adds.jobs jobs
            (All-map (λ job made. inl made) adds.jobs adds.fit)
            (All-map (λ job made. inr made) jobs fit),
      )
