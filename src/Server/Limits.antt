-- ===== src/Server/Limits.antt =====
-- What a request to the server of internal/server/server.go does to its rate limiter.
use mathlib.Core.Path.{subst}
use openclaw_relay.Base.{◌≡◌, inl, inr, refl, sym, Option, none, arith, Option-cases}
use openclaw_relay.Base.Str.{Str}
use openclaw_relay.Http.{Request}
use openclaw_relay.RateLimit.{Limiter}
use openclaw_relay.Config.{Config}
use openclaw_relay.Webhook.Moves.{IsMove}
use openclaw_relay.Webhook.Trello.Limits.{trello_key, trello-IsMove}
use openclaw_relay.Webhook.GitHub.Limits.{github_key, github-IsMove}
use openclaw_relay.Auth.Google.{GoogleAuth, Reply}
use openclaw_relay.Mux.{found, moved, missing, route}
use openclaw_relay.Server.{
  Server, Site, Route, trello, github, google_root, google_login, google_callback, google_logout,
}
use openclaw_relay.Server.Handlers.{
  World, Moment, Handled, after_login, serve_route, guarded, logged, serve,
}
use openclaw_relay.Server.Routes.{guarded_by_route}

-- The key that the handler asks the limiter about.
abbrev pub key_at : World → Config → Moment → Request → Limiter → Route → Option Str
key_at u cfg w r l trello = trello_key u.platform cfg w.readings l r
key_at u cfg w r l github = github_key u.platform cfg w.readings l r
key_at u cfg w r l _ = none

abbrev pub asked_key : World → Site → Moment → Request → Limiter → Option Str
asked_key u site w r l = elim (route site.table r) [
  | found at ↦ key_at u site.cfg w r l at
  | moved _ ↦ none
  | missing ↦ none
]

limiter-after_login :
    (s : Server) (handler : GoogleAuth → GoogleAuth × Reply)
    → (after_login s handler).0.limiter ≡ s.limiter
limiter-after_login s handler = elim (Option-cases s.google) [
  | inl lacking ↦ rw (lacking) refl
  | inr (g, there) ↦ rw (there) refl
]

module _ (u : World) (site : Site) where
  serve_route-IsMove :
      (w : Moment) (r : Request) (s : Server) (at : Route)
      → IsMove w.readings s.limiter
          (key_at u site.cfg w r s.limiter at)
          (serve_route u site.cfg w at r s).0.limiter
  unfolding serve_route
  serve_route-IsMove w r s trello = trello-IsMove u.platform site.cfg w.readings s.limiter r
  serve_route-IsMove w r s github = github-IsMove u.platform site.cfg w.readings s.limiter r
  serve_route-IsMove w r s google_root = inl (limiter-after_login s _)
  serve_route-IsMove w r s google_login = inl (limiter-after_login s _)
  serve_route-IsMove w r s google_callback = inl (limiter-after_login s _)
  serve_route-IsMove w r s google_logout = inl (limiter-after_login s _)
  serve_route-IsMove w r s at = inl refl

  pub limiter-logged :
      (w : Moment) (r : Request) (h : Handled) → (logged u site w r h).0.limiter ≡ h.0.limiter
  unfolding logged
  limiter-logged w r (s, answer) = ground arith

  pub serve-IsMove :
      (w : Moment) (r : Request) (s : Server)
      → IsMove w.readings s.limiter (asked_key u site w r s.limiter) (serve u site w r s).0.limiter
  unfolding serve
  serve-IsMove w r s =
      subst (IsMove w.readings s.limiter (asked_key u site w r s.limiter))
        (sym (limiter-logged w r (guarded u site w r s)))
        (guarded_by_route u site w r s
          (λ s'. IsMove w.readings s.limiter (asked_key u site w r s.limiter) s'.limiter) (inl refl)
          (λ at e. rw (e, asked_key) (serve_route-IsMove w r s at)))
