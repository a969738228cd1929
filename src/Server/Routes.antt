-- ===== src/Server/Routes.antt =====
-- Which request reaches which handler of internal/server/server.go.
use mathlib.Core.Path.{subst}
use openclaw_relay.Base.{
  arith, false, inl, inr, ◌≡◌, ◌≢◌, inl, inr, refl, sym, ap, ◌∙◌, true, Bool, [], if◌then◌else◌,
  Bool-cases, All, All-append,
}
use openclaw_relay.Base.Str.{has_prefix_trans, Str, ◌==◌, codes, has_prefix}
use openclaw_relay.Http.{Request, header, http_error}
use openclaw_relay.Config.{Config}
use openclaw_relay.Mux.{ends_in_slash, Routed, moved, missing, found, route}
use openclaw_relay.Mux.Matches.{Matches, route-Matches}
use openclaw_relay.Auth.Access.{secured-header, secured_either}
use openclaw_relay.Server.{
  Server, Site, Route, OauthSetup, unset, broken, ready, google_routes, gmail_routes, oauth_routes,
  has_gmail, routes, health, trello, github, default_page, api_status, google_root, google_login,
  google_callback, google_logout, api_auth_status, list_messages, get_message, modify_message,
  list_labels, get_thread,
}
use openclaw_relay.Server.Handlers.{World, Moment, plain, serve_route, dispatch, guarded}

-- The pattern of a handler.
abbrev pub path_of : Route → Str
path_of health = codes "/health"
path_of trello = codes "/webhook/trello"
path_of github = codes "/webhook/github"
path_of default_page = codes "/"
path_of api_status = codes "/api/status"
path_of google_root = codes "/"
path_of google_login = codes "/auth/google/login"
path_of google_callback = codes "/auth/google/callback"
path_of google_logout = codes "/auth/logout"
path_of api_auth_status = codes "/api/auth/status"
path_of list_messages = codes "/api/gmail/messages"
path_of get_message = codes "/api/gmail/message/"
path_of modify_message = codes "/api/gmail/modify/"
path_of list_labels = codes "/api/gmail/labels"
path_of get_thread = codes "/api/gmail/threads/"

abbrev HasPath : Str → Route → Type 0
HasPath pattern at = pattern ≡ path_of at

gmail_routes-HasPath : All (λ entry. HasPath entry.0 entry.1) gmail_routes
unfolding gmail_routes
gmail_routes-HasPath = (refl, (refl, (refl, (refl, (refl, tt)))))

oauth_routes-HasPath :
    (cfg : Config) (setup : OauthSetup)
    → All (λ entry. HasPath entry.0 entry.1) (oauth_routes cfg setup)
unfolding oauth_routes google_routes
oauth_routes-HasPath cfg unset = (refl, tt)
oauth_routes-HasPath cfg broken = tt
oauth_routes-HasPath cfg (ready _) = elim (Bool-cases (has_gmail cfg)) [
  | inl on ↦ rw (on) (refl, (refl, (refl, (refl, (refl, gmail_routes-HasPath)))))
  | inr off ↦ rw (off) (refl, (refl, (refl, (refl, (refl, tt)))))
]

routes-HasPath :
    (cfg : Config) (setup : OauthSetup) → All (λ entry. HasPath entry.0 entry.1) (routes cfg setup)
unfolding routes
routes-HasPath cfg setup = (
  refl,
  (
    refl,
    (
      refl,
      All-append (λ entry. HasPath entry.0 entry.1) (oauth_routes cfg setup) _
          (oauth_routes-HasPath cfg setup) (refl, tt),
    ),
  ),
)

-- A request that reaches a handler is for the path of the handler, or for one that it begins if it ends
-- in a slash.
pub reached-Matches :
    (cfg : Config) (setup : OauthSetup) (r : Request) (at : Route)
    → route (routes cfg setup) r ≡ found at
    → Matches (path_of at) r.path
reached-Matches cfg setup r at e =
    let (pattern, has, fits) =
      route-Matches HasPath (routes cfg setup) r at (routes-HasPath cfg setup) e in
    subst (λ p. Matches p r.path) has fits

-- A pattern without a slash at its end stands for one path.
pub exact_path :
    (pattern path : Str) → ends_in_slash pattern ≡ false → Matches pattern path → path ≡ pattern
exact_path pattern path whole (inl same) = sym same
exact_path pattern path whole (inr (slash, _)) = absurd (ground (arith, whole, slash))

-- The handlers under /api/.
abbrev pub is_api : Route → Bool
is_api at = has_prefix (path_of at) (codes "/api/")

api_path :
    (at : Route) (path : Str)
    → is_api at ≡ true
    → Matches (path_of at) path
    → has_prefix path (codes "/api/") ≡ true
api_path at path api (inl same) = ap (λ p. has_prefix p (codes "/api/")) (sym same) ∙ api
api_path at path api (inr (slash, begins)) =
    has_prefix_trans path (path_of at) (codes "/api/") begins api

module _ (u : World) (site : Site) (w : Moment) (r : Request) (s : Server) where
  pub dispatch_found :
      (at : Route)
      → route site.table r ≡ found at
      → dispatch u site w r s ≡ serve_route u site.cfg w at r s
  unfolding dispatch
  dispatch_found at reached = rw (reached, dispatch) refl

  -- What holds of the server as it was, and as the handler that is reached leaves it, holds of it after
  -- the request.
  pub guarded_by_route :
      (P : Server → Type 0)
      → P s
      → ((at : Route) → route site.table r ≡ found at → P (serve_route u site.cfg w at r s).0)
      → P (guarded u site w r s).0
  unfolding guarded
  guarded_by_route P same at_route =
      elim (secured_either (λ response s. (s, plain response)) site.cfg (dispatch u site w) r) [
        | inl passed ↦ rw (passed) (of_routed (route site.table r) refl)
        | inr refused ↦ rw (refused) same
      ]
    where
      of_routed :
          (routed : Routed Route) → route site.table r ≡ routed → P (dispatch u site w r s).0
      of_routed (found at) e = subst (λ h. P h.0) (sym (dispatch_found at e)) (at_route at e)
      of_routed (moved path) e = unfold dispatch in rw (e, dispatch) same
      of_routed missing e = unfold dispatch in rw (e, dispatch) same

-- Where the configuration has a token, a request for one of the handlers under /api/ gets to it exactly
-- if its header has the token; else it is answered 401 and changes nothing.
pub guarded-api :
    (u : World) (site : Site) (setup : OauthSetup) (w : Moment) (r : Request) (s : Server)
    (at : Route)
    → site.table ≡ routes site.cfg setup
    → site.cfg.server.internal_token ≢ []
    → route site.table r ≡ found at
    → is_api at ≡ true
    → guarded u site w r s ≡ (
        if header r (codes "X-Relay-Token") == site.cfg.server.internal_token
        then serve_route u site.cfg w at r s
        else (s, plain (http_error (codes "{\"error\":\"unauthorized\"}") 401)))
unfolding guarded
guarded-api u site setup w r s at table set reached api =
    let under : has_prefix r.path (codes "/api/") ≡ true =
      api_path at r.path api
        (reached-Matches site.cfg setup r at (ap (λ t. route t r) (sym table) ∙ reached)) in
    let checked =
      secured-header (λ response s. (s, plain response)) site.cfg (dispatch u site w) r set in
    elim (Bool-cases (header r (codes "X-Relay-Token") == site.cfg.server.internal_token)) [
      | inl good ↦
          ap (λ f. f s) (rw (under, good) at checked)
          ∙ dispatch_found u site w r s at reached
          ∙ rw (good) refl
      | inr bad ↦ ap (λ f. f s) (rw (under, bad) at checked) ∙ rw (bad) refl
    ]
