-- ===== src/Auth.antt =====
-- Who is let in: the session cookie of internal/auth/session.go, the token check of
-- internal/auth/middleware.go, and where internal/server/server.go puts it. HMAC-SHA256 is the argument
-- `hmac`, key first.
pub mod Google
pub mod Pages
pub mod Dashboard
pub mod Markup
pub mod Session
pub mod Access
pub mod Login
pub mod Callback
pub mod Visit
pub mod Failures
pub mod Cleanup
pub mod States
pub mod Accounts
pub mod Connect
pub mod Tests
mod VisitTests
use openclaw_relay.Base.{
  Bool, not, ◌&&◌, ◌||◌, Option, none, some, [], ◌∷◌, ◌++◌, nat_eq, if◌then◌else◌, ℕ,
}
use openclaw_relay.Base.Str.{Str, ◌==◌, codes, has_prefix}
use openclaw_relay.Base.Map.{lookup}
use openclaw_relay.Encoding.{hex_encode, hex_decode}
use openclaw_relay.Http.{Request, Response, header, http_error}
use openclaw_relay.Config.{Config}

module _ (hmac : Str → Str → Str) where
  unfoldable pub compute_hmac : Str → Str → Str
  unfolding hex_encode
  compute_hmac email key = hex_encode (hmac key email)

  -- The value of the cookie that `setSessionCookie` sets.
  unfoldable pub session_value : Str → Str → Str
  unfolding compute_hmac
  session_value email key = hex_encode email ++ b'.' ∷ compute_hmac email key

  -- `strings.SplitN(s, ".", 2)`, if there is a dot
  unfoldable pub split_dot : Str → Option (Str × Str)
  split_dot [] = none
  split_dot (c ∷ s) =
      let rest = split_dot s in
      if nat_eq c b'.'
      then some ([], s)
      else elim rest [ none ↦ none | some (front, back) ↦ some (c ∷ front, back) ]

  -- The email of a signed payload, or "".
  unfoldable pub signed_email : Str → Str → Str → Str
  unfolding hex_decode compute_hmac
  signed_email key payload signature = elim (hex_decode payload) [
    | none ↦ []
    | some email ↦ if not (signature == compute_hmac email key) then [] else email
  ]

  unfoldable pub email_of_value : Str → Str → Str
  unfolding split_dot signed_email
  email_of_value key value = elim (split_dot value) [
    | none ↦ []
    | some (payload, signature) ↦ signed_email key payload signature
  ]

  unfoldable pub get_session_email : Request → Str → Str
  unfolding email_of_value lookup
  get_session_email r key = elim (lookup (codes "relay_session") r.cookies) [
    | none ↦ []
    | some value ↦ email_of_value key value
  ]

unfoldable pub is_public : Str → Bool
is_public path =
    has_prefix path (codes "/webhook/")
    || has_prefix path (codes "/auth/")
    || path == codes "/health"

-- `Middleware` around a handler; `refuse` is what becomes of a response of its own.
module _ {A : Type 0} (refuse : Response → A) where
  unfoldable pub middleware : Str → (Request → A) → Request → A
  unfolding is_public header http_error
  middleware internal_token next r =
      if is_public r.path
      then next r
      else if has_prefix r.path (codes "/api/")
      then (let token = header r (codes "X-Relay-Token") in
          if token == [] || not (token == internal_token)
          then refuse (http_error (codes "{\"error\":\"unauthorized\"}") 401)
          else next r)
      else next r

  -- The server's handler, from that of its routes.
  unfoldable pub secured : Config → (Request → A) → Request → A
  unfolding middleware
  secured cfg mux =
      if not (cfg.server.internal_token == [])
      then middleware cfg.server.internal_token mux
      else mux
