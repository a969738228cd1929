-- ===== src/Auth/Tests.antt =====
-- A login from the login page to the dashboard, and the theorems at concrete inputs.
use openclaw_relay.Base.{◌≡◌, ◌≢◌, ◌↔◌, refl, true, none, some, [], ◌∷◌, ◌++◌, arith}
use openclaw_relay.Base.Str.{Str, ◌==◌, codes, has_prefix, ne_of_test}
use openclaw_relay.Base.Map.{lookup, HasUniqueKeys}
use openclaw_relay.Encoding.RoundTrip.{IsBytes}
use openclaw_relay.Http.{Request, header, query_param, http_error, status_only}
use openclaw_relay.Config.{is_member}
use openclaw_relay.Samples.{sample_config}
use openclaw_relay.Tokens.{OauthToken, Codec, Disk, save, save_google, encrypt}
use openclaw_relay.Auth.{session_value, secured, middleware, is_public}
use openclaw_relay.Auth.Session.{HasSession}
use openclaw_relay.Auth.Google.{
  GoogleAuth, Oauth, set_session, redirect, dashboard, consume_state, is_stale, handle_root,
  handle_callback, resume, exchange_code, identify, accept,
}
use openclaw_relay.Auth.Login.{handle_root-dashboard}
use openclaw_relay.Auth.Callback.{IsLogin, handle_callback-IsLogin, handle_callback-dashboard}

abbrev pub hmac : Str → Str → Str
hmac key text = codes "h"

abbrev pub me : Str
me = codes "me@x.org"

abbrev pub token : OauthToken
token = record { access_token = codes "a"; refresh_token = []; token_type = []; expiry = 9 }

abbrev pub oauth : Oauth
oauth = record {
  exchange = λ code. some token;
  can_serve = λ t. true;
  userinfo_email = λ t. some me;
  auth_code_url = λ state. codes "https://accounts/" ++ state;
}

abbrev pub codec : Codec
codec = record {
  valid_key = λ key. true;
  nonce_size = 1;
  seal = λ key nonce plain. plain;
  unseal = λ key nonce sealed. some sealed;
  marshal = λ t. codes "tokens";
  unmarshal = λ s. none;
}

abbrev pub disk : Disk
disk = record { made = true; nonce = some (7 ∷ []); write = λ bytes file. (some bytes, true) }

abbrev pub auth : GoogleAuth
auth = record {
  allowed_emails = me ∷ [];
  store = record { key = []; stored = record { google_by_email = []; google = none }; file = none };
  enc_key = codes "k";
  state_to_email = (codes "s1", record { email = []; created_at = 5 }) ∷ [];
}

abbrev pub request : Request
request = record {
  method = codes "GET";
  host = [];
  path = codes "/auth/google/callback";
  query = (codes "state", codes "s1") ∷ (codes "code", codes "c1") ∷ [];
  headers = [];
  cookies = [];
  remote_addr = [];
  body = some [];
}

abbrev value : Str
value = session_value hmac me (codes "k")

abbrev root : Request
root = record request {
  path = codes "/";
  query = [];
  cookies = (codes "relay_session", value) ∷ [];
}

logged_in :
    (handle_callback hmac codec disk oauth 7 auth request).1
    ≡ redirect (codes "/") (set_session value)
unfolding handle_callback resume consume_state is_stale exchange_code identify accept query_param
    lookup codes ◌==◌ is_member save_google save encrypt
logged_in = refl

handle_callback-IsLogin_example :
    (email : Str) × IsLogin hmac codec disk oauth 7 auth request value email
handle_callback-IsLogin_example =
    handle_callback-IsLogin hmac codec disk oauth 7 auth request (codes "/") value logged_in

states_unique : HasUniqueKeys auth.state_to_email
unfolding lookup
states_unique = (refl, tt)

me_ne : me ≢ []
me_ne = ne_of_test me [] (unfold codes ◌==◌ in refl)

me-IsBytes : IsBytes me
unfolding codes
me-IsBytes = ground arith

named-IsBytes :
    (t : OauthToken) (email : Str)
    → oauth.userinfo_email t ≡ some email
    → (email ≢ []) × IsBytes email
named-IsBytes t email e =
    let same : me ≡ email = ground (arith, e) in rw⁻¹ (same) (me_ne, me-IsBytes)

root_cookie : lookup (codes "relay_session") root.cookies ≡ some value
unfolding lookup codes ◌==◌
root_cookie = refl

handle_callback-dashboard_example :
    (email : Str) × IsLogin hmac codec disk oauth 7 auth request value email
    × (handle_root hmac (handle_callback hmac codec disk oauth 7 auth request).0 root
        ≡ dashboard email)
handle_callback-dashboard_example =
    handle_callback-dashboard hmac codec disk oauth 7 auth request root (codes "/") value
      named-IsBytes logged_in refl root_cookie

handle_root-dashboard_example : (handle_root hmac auth root ≡ dashboard me) ↔ (
    (root.path ≡ codes "/")
    × (me ≢ [])
    × HasSession hmac auth.enc_key root me
    × (is_member me auth.allowed_emails ≡ true))
handle_root-dashboard_example = handle_root-dashboard hmac auth root me

secret_ne : sample_config.server.internal_token ≢ []
secret_ne = ne_of_test sample_config.server.internal_token [] (unfold codes ◌==◌ in refl)

abbrev api : Request
api = record request { path = codes "/api/status" }

without_token :
    secured (λ response. response) sample_config (λ r. status_only 200) api
    ≡ http_error (codes "{\"error\":\"unauthorized\"}") 401
unfolding secured middleware is_public has_prefix header lookup codes ◌==◌ http_error
without_token = refl
