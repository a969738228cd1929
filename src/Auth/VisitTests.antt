-- ===== src/Auth/VisitTests.antt =====
-- A login that is carried through and the text of the dashboard, at concrete inputs.
use openclaw_relay.Base.{◌≡◌, inr, refl, true, some, [], ◌∷◌, arith, map}
use openclaw_relay.Base.Str.{◌==◌, codes}
use openclaw_relay.Base.Map.{lookup}
use openclaw_relay.Encoding.{hex_encode}
use openclaw_relay.Http.{Request, query_param}
use openclaw_relay.Config.{is_member}
use openclaw_relay.Samples.{sample_config}
use openclaw_relay.Tokens.{save_google, save, encrypt}
use openclaw_relay.Auth.{session_value}
use openclaw_relay.Auth.Google.{
  kept, set_session, redirect, handle_login, handle_callback, generate_state,
}
use openclaw_relay.Auth.Failures.{Ends, handle_callback-Ends}
use openclaw_relay.Base.{List, ◌≢◌}
use openclaw_relay.Base.Map.{HasUniqueKeys}
use openclaw_relay.Base.Str.{ne_of_test}
use openclaw_relay.Auth.Google.{error}
use openclaw_relay.Auth.States.{
  Action, logs_in, calls_back, cleans, act, act_all, handle_callback_once,
}
use openclaw_relay.Auth.Visit.{IsNamed, handle_login-callback}
use openclaw_relay.Auth.Dashboard.{dashboard_page, has_account}
use openclaw_relay.Auth.Markup.{markup, dashboard_page-markup}
use openclaw_relay.Auth.Tests.{hmac, me, token, oauth, codec, disk, auth, request}

abbrev asks : Request
asks = record request { path = codes "/auth/google/login"; query = (codes "account", me) ∷ [] }

abbrev returns : Request
returns = record request {
  query = (codes "state", hex_encode (7 ∷ [])) ∷ (codes "code", codes "c1") ∷ [];
}

returns-IsNamed : IsNamed hmac codec disk oauth returns token me
unfolding query_param lookup codes ◌==◌
returns-IsNamed = record {
  coded = λ e. ground (arith, e);
  exchanged = refl;
  served = refl;
  named = refl;
}

me_allowed : is_member me auth.allowed_emails ≡ true
unfolding is_member codes ◌==◌
me_allowed = refl

account_asked : query_param asks (codes "account") ≡ me
unfolding query_param lookup codes ◌==◌
account_asked = refl

returns_state : query_param returns (codes "state") ≡ hex_encode (7 ∷ [])
unfolding query_param lookup codes ◌==◌
returns_state = refl

same_users : is_member me (handle_login hmac oauth (7 ∷ []) 3 auth asks).0.allowed_emails ≡ true
unfolding handle_login generate_state query_param lookup codes ◌==◌ is_member
same_users = refl

saved :
    (save_google codec disk token me (handle_login hmac oauth (7 ∷ []) 3 auth asks).0.store).1
    ≡ true
unfolding handle_login generate_state query_param lookup codes ◌==◌ is_member save_google save
    encrypt
saved = refl

handle_login-callback_example :
    ((handle_login hmac oauth (7 ∷ []) 3 auth asks).1
      ≡ redirect (oauth.auth_code_url (hex_encode (7 ∷ []))) kept)
    × ((handle_callback hmac codec disk oauth 9
          (handle_login hmac oauth (7 ∷ []) 3 auth asks).0
          returns).1
        ≡ redirect (codes "/") (
            set_session
              (session_value hmac me (handle_login hmac oauth (7 ∷ []) 3 auth asks).0.enc_key)))
handle_login-callback_example =
    handle_login-callback hmac codec disk oauth (7 ∷ []) 3 9 auth
      (handle_login hmac oauth (7 ∷ []) 3 auth asks).0 asks returns token me
      (inr (account_asked, me_allowed)) refl (ground arith) returns_state returns-IsNamed same_users
      saved

-- no account is connected, and the emails have markup in them
no_accounts : map (has_account []) (codes "<b>\"" ∷ []) ≡ map (has_account []) (me ∷ [])
unfolding has_account lookup
no_accounts = refl

dashboard_page-markup_example :
    markup (dashboard_page [] (codes "<b>\"" ∷ []) (some sample_config) (codes "'>"))
    ≡ markup (dashboard_page [] (me ∷ []) (some sample_config) me)
dashboard_page-markup_example =
    dashboard_page-markup [] [] (codes "<b>\"" ∷ []) (me ∷ []) (some sample_config) (codes "'>") me
      no_accounts

handle_callback-Ends_example :
    Ends hmac codec disk oauth auth.store
      (handle_callback hmac codec disk oauth 7 auth request).0
      (handle_callback hmac codec disk oauth 7 auth request).1
handle_callback-Ends_example = handle_callback-Ends hmac codec disk oauth 7 auth request

-- another login and a clean-up after the callback
abbrev actions : List Action
actions = logs_in oauth (7 ∷ []) 8 asks ∷ cleans 9 ∷ []

request_state : query_param request (codes "state") ≡ codes "s1"
unfolding query_param lookup codes ◌==◌
request_state = refl

other_state : hex_encode (7 ∷ []) ≢ codes "s1"
other_state = ne_of_test (hex_encode (7 ∷ [])) (codes "s1") (unfold hex_encode codes ◌==◌ in refl)

states_unique : HasUniqueKeys auth.state_to_email
unfolding lookup
states_unique = (refl, tt)

handle_callback_once_example :
    handle_callback hmac codec disk oauth 9
      (act_all hmac codec actions (act hmac codec (calls_back oauth disk 7 request) auth))
      request
    ≡ (
      act_all hmac codec actions (act hmac codec (calls_back oauth disk 7 request) auth),
      error (codes "invalid state") 400,
    )
handle_callback_once_example =
    handle_callback_once hmac codec oauth oauth disk disk 7 9 auth request request actions
      states_unique refl (rw (request_state) (other_state, (tt, tt)))
