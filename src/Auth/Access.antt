-- ===== src/Auth/Access.antt =====
-- The token check of internal/auth/middleware.go, as internal/server/server.go sets it up.
use mathlib.Core.Path.{subst}
use openclaw_relay.Base.{
  ◌⊎◌, ◌≡◌, ◌≢◌, refl, sym, true, false, not, ◌&&◌, [], ◌++◌, arith, if◌then◌else◌,
}
use openclaw_relay.Base.Str.{
  Str, ◌==◌, eq_iff, eq_of_ne, codes, has_prefix, cut_prefix_of_has_prefix,
}
use openclaw_relay.Http.{Request, Response, header, http_error}
use openclaw_relay.Config.{Config}
use openclaw_relay.Auth.{middleware, is_public, secured}

api_not_public : (rest : Str) → is_public (codes "/api/" ++ rest) ≡ false
unfolding is_public has_prefix codes ◌==◌
api_not_public rest = refl

is_public-eq-false : (path : Str) → has_prefix path (codes "/api/") ≡ true → is_public path ≡ false
is_public-eq-false path h =
    let (rest, _, same) = cut_prefix_of_has_prefix path (codes "/api/") h in
    subst (λ p. is_public p ≡ false) (sym same) (api_not_public rest)

-- Where the configuration has a token, a request to a path under /api/ reaches the routes exactly if its
-- header has this token, and is refused else; any other request reaches them.
pub secured-header :
    {A : Type 0} (refuse : Response → A) (cfg : Config) (mux : Request → A) (r : Request)
    → cfg.server.internal_token ≢ []
    → secured refuse cfg mux r ≡ (
        if has_prefix r.path (codes "/api/")
          && not (header r (codes "X-Relay-Token") == cfg.server.internal_token)
        then refuse (http_error (codes "{\"error\":\"unauthorized\"}") 401)
        else mux r)
unfolding secured
secured-header refuse cfg mux r set = ground (
  arith,
  eq_of_ne cfg.server.internal_token [] set,
  is_public-eq-false r.path,
  eq_iff (header r (codes "X-Relay-Token")) [],
  eq_iff (header r (codes "X-Relay-Token")) cfg.server.internal_token,
)

-- A request reaches the routes or is refused.
pub secured_either :
    {A : Type 0} (refuse : Response → A) (cfg : Config) (mux : Request → A) (r : Request)
    → (secured refuse cfg mux r ≡ mux r)
      ⊎ (secured refuse cfg mux r ≡ refuse (http_error (codes "{\"error\":\"unauthorized\"}") 401))
unfolding secured middleware
secured_either refuse cfg mux r = ground arith

-- A request for a public path reaches the routes.
pub secured_public :
    {A : Type 0} (refuse : Response → A) (cfg : Config) (mux : Request → A) (r : Request)
    → is_public r.path ≡ true
    → secured refuse cfg mux r ≡ mux r
unfolding secured middleware
secured_public refuse cfg mux r open_to_all = ground (arith, open_to_all)
