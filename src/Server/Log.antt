-- ===== src/Server/Log.antt =====
-- What the audit log of internal/audit/audit.go holds of the requests to the server.
use mathlib.Core.List.{map-append}
use openclaw_relay.Base.{
  ℕ, ◌≡◌, inl, inr, refl, sym, ap, ◌∙◌, true, List, [], ◌∷◌, ◌++◌, map, Option-cases, append_assoc,
  append-nil,
}
use openclaw_relay.Base.Str.{Str}
use openclaw_relay.Http.{Request}
use openclaw_relay.Config.{Config}
use openclaw_relay.Audit.{Entry, middleware, record_status}
use openclaw_relay.Auth.Google.{GoogleAuth, Reply}
use openclaw_relay.Server.{
  Server, Site, Route, google_root, google_login, google_callback, google_logout,
}
use openclaw_relay.Server.Handlers.{
  World, Moment, answer_status, after_login, serve_route, guarded, logged, serve, serve_all,
}
use openclaw_relay.Server.Routes.{guarded_by_route}

after_login-log :
    (s : Server) (handler : GoogleAuth → GoogleAuth × Reply) → (after_login s handler).0.log ≡ s.log
after_login-log s handler = elim (Option-cases s.google) [
  | inl lacking ↦ rw (lacking) refl
  | inr (g, there) ↦ rw (there) refl
]

-- The method, the path and the status of a line.
abbrev pub line_of : Entry → Str × (Str × ℕ)
line_of entry = (entry.method, (entry.path, entry.status))

module _ (u : World) where
  serve_route-log :
      (cfg : Config) (w : Moment) (r : Request) (s : Server) (at : Route)
      → (serve_route u cfg w at r s).0.log ≡ s.log
  unfolding serve_route
  serve_route-log cfg w r s google_root = after_login-log s _
  serve_route-log cfg w r s google_login = after_login-log s _
  serve_route-log cfg w r s google_callback = after_login-log s _
  serve_route-log cfg w r s google_logout = after_login-log s _
  serve_route-log cfg w r s at = refl

  pub guarded-log :
      (site : Site) (w : Moment) (r : Request) (s : Server) → (guarded u site w r s).0.log ≡ s.log
  guarded-log site w r s =
      guarded_by_route u site w r s (λ s'. s'.log ≡ s.log) refl
        (λ at _. serve_route-log site.cfg w r s at)

  -- The requests and the status of the answer to each.
  abbrev pub lines : Site → List (Moment × Request) → Server → List (Str × (Str × ℕ))
  lines site [] s = []
  lines site ((w, r) ∷ requests) s =
      (r.method, (r.path, answer_status (serve u site w r s).1))
      ∷ lines site requests (serve u site w r s).0

  serve-log :
      (site : Site) (w : Moment) (r : Request) (s : Server)
      → site.audited ≡ true
      → map line_of (serve u site w r s).0.log
        ≡ map line_of s.log ++ (r.method, (r.path, answer_status (serve u site w r s).1)) ∷ []
  unfolding serve logged middleware record_status
  serve-log site w r s on = rw (on, guarded-log site w r s) (map-append line_of s.log _)

  -- Where the audit log could be opened, it gets one line for each request, in the order of the requests,
  -- with the method, the path and the status of the answer, and no other line. This holds of the requests
  -- that are refused, moved or not found as well.
  pub serve_all-lines :
      (site : Site) (requests : List (Moment × Request)) (s : Server)
      → site.audited ≡ true
      → map line_of (serve_all u site requests s).log ≡ map line_of s.log ++ lines site requests s
  unfolding serve_all
  serve_all-lines site [] s on = sym (append-nil (map line_of s.log))
  serve_all-lines site ((w, r) ∷ requests) s on =
      serve_all-lines site requests (serve u site w r s).0 on
      ∙ ap (λ l. l ++ lines site requests (serve u site w r s).0) (serve-log site w r s on)
      ∙ append_assoc (map line_of s.log) _ _
