-- ===== src/Auth/Google.antt =====
-- The Google login of internal/auth/google.go. Requests to Google are the fields of `Oauth`; of the
-- HTML pages the model says which one is shown and to whom.
use openclaw_relay.Base.{
  map, length, ℕ, ◌+◌, Bool, true, false, not, ◌&&◌, Option, none, some, List, [], ◌∷◌, ltb,
  if◌then◌else◌,
}
use openclaw_relay.Base.Str.{Str, ◌==◌, codes}
use openclaw_relay.Base.Map.{Map, lookup, insert, delete}
use openclaw_relay.Encoding.{hex_encode}
use openclaw_relay.Http.{Request, query_param}
use openclaw_relay.Config.{GoogleConfig, is_member}
use openclaw_relay.Tokens.{OauthToken, GoogleToken, Codec, Disk, Store, save_google, clear_google}
use openclaw_relay.Auth.{session_value, get_session_email}

-- 10 minutes in nanoseconds
abbrev pub state_ttl : ℕ
state_ttl = 600000000000

pub record StateEntry : Type 0 where
  pub email : Str
  pub created_at : ℕ

pub record GoogleAuth : Type 0 where
  pub allowed_emails : List Str
  pub store : Store
  pub enc_key : Str
  pub state_to_email : Map StateEntry

-- `NewGoogleAuth`, without the start of the clean-up goroutine
unfoldable pub new_google_auth : GoogleConfig → Store → Str → GoogleAuth
new_google_auth cfg store enc_key = record {
  allowed_emails = cfg.allowed_emails;
  store = store;
  enc_key = enc_key;
  state_to_email = [];
}

-- The code exchanged for a token, whether the service for it can be made, the email of its user, and
-- the address of the consent page for a state.
pub record Oauth : Type 0 where
  pub exchange : Str → Option OauthToken
  pub can_serve : OauthToken → Bool
  pub userinfo_email : OauthToken → Option Str
  pub auth_code_url : Str → Str

-- What a reply does to the session cookie.
pub data Cookie : Type 0 where
  kept cleared : Cookie
  set_session : Str → Cookie

pub data Reply : Type 0 where
  error : Str → ℕ → Reply
  not_found : Reply
  redirect : Str → Cookie → Reply
  login_page : Cookie → Reply
  dashboard : Str → Reply
  access_denied : Str → Reply

-- `rand` is what is read from the random source.
unfoldable pub generate_state : Str → ℕ → Str → GoogleAuth → GoogleAuth × Str
generate_state rand now email g =
    let state = hex_encode rand in
    (
      record g {
        state_to_email = insert state (record { email = email; created_at = now }) g.state_to_email;
      },
      state,
    )

-- `time.Since(entry.createdAt) > stateTTL`, where `since` is the clock
unfoldable pub is_stale : ℕ → StateEntry → Bool
is_stale since entry = ltb (entry.created_at + state_ttl) since

-- The email that the state stands for, if the state is known and not too old.
unfoldable pub consume_state : ℕ → Str → GoogleAuth → GoogleAuth × Option Str
unfolding is_stale
consume_state since state g = elim (lookup state g.state_to_email) [
  | none ↦ (g, none)
  | some entry ↦ (
    record g { state_to_email = delete state g.state_to_email },
    if is_stale since entry then none else some entry.email,
  )
]

unfoldable pub verify_state : Str → GoogleAuth → Bool
verify_state state g = elim (lookup state g.state_to_email) [ none ↦ false | some _ ↦ true ]

-- One round of `cleanupStates`; the clock is read once, so the order of its `range` does not matter.
unfoldable pub fresh_states : ℕ → Map StateEntry → Map StateEntry
unfolding is_stale
fresh_states now [] = []
fresh_states now ((k, entry) ∷ m) =
    if is_stale now entry then fresh_states now m else (k, entry) ∷ fresh_states now m

unfoldable pub cleanup_states : ℕ → GoogleAuth → GoogleAuth
unfolding fresh_states
cleanup_states now g = record g { state_to_email = fresh_states now g.state_to_email }

module _ (hmac : Str → Str → Str) where
  unfoldable pub handle_root : GoogleAuth → Request → Reply
  unfolding get_session_email
  handle_root g r =
      if not (r.path == codes "/")
      then not_found
      else let email = get_session_email hmac r g.enc_key in
        if email == []
        then login_page kept
        else if not (is_member email g.allowed_emails)
        then login_page cleared
        else dashboard email

  unfoldable pub handle_login : Oauth → Str → ℕ → GoogleAuth → Request → GoogleAuth × Reply
  unfolding query_param generate_state
  handle_login o rand now g r =
      let account = query_param r (codes "account") in
      if not (account == []) && not (is_member account g.allowed_emails)
      then (g, error (codes "account is not allowed") 403)
      else let (g', state) = generate_state rand now account g in
        (g', redirect (o.auth_code_url state) kept)

  -- The callback once Google has named the user.
  unfoldable pub accept : Codec → Disk → GoogleAuth → Str → OauthToken → Str → GoogleAuth × Reply
  unfolding save_google session_value
  accept c d g expected token email =
      if not (expected == []) && not (email == expected)
      then (g, error (codes "authenticated with different account") 403)
      else if not (is_member email g.allowed_emails)
      then (g, access_denied email)
      else let (store, saved) = save_google c d token email g.store in
        let g' = record g { store = store } in
        if not saved
        then (g', error (codes "Failed to save token") 500)
        else (g', redirect (codes "/") (set_session (session_value hmac email g.enc_key)))

  -- The callback once its code is exchanged.
  unfoldable pub identify :
      Codec → Disk → Oauth → GoogleAuth → Str → OauthToken → GoogleAuth × Reply
  unfolding accept
  identify c d o g expected token =
      if not (o.can_serve token)
      then (g, error (codes "Failed to get user info") 500)
      else elim (o.userinfo_email token) [
        | none ↦ (g, error (codes "Failed to get user info") 500)
        | some email ↦ accept c d g expected token email
      ]

  -- The callback once its state is consumed.
  unfoldable pub exchange_code :
      Codec → Disk → Oauth → GoogleAuth → Str → Request → GoogleAuth × Reply
  unfolding identify query_param
  exchange_code c d o g expected r =
      let code = query_param r (codes "code") in
      if code == [] then (g, error (codes "missing code") 400) else elim (o.exchange code) [
        | none ↦ (g, error (codes "OAuth exchange failed") 500)
        | some token ↦ identify c d o g expected token
      ]

  -- The callback behind its state.
  unfoldable pub resume :
      Codec → Disk → Oauth → Request → GoogleAuth × Option Str → GoogleAuth × Reply
  unfolding exchange_code
  resume c d o r (g, none) = (g, error (codes "invalid state") 400)
  resume c d o r (g, some expected) = exchange_code c d o g expected r

  unfoldable pub handle_callback :
      Codec → Disk → Oauth → ℕ → GoogleAuth → Request → GoogleAuth × Reply
  unfolding consume_state resume query_param
  handle_callback c d o since g r =
      resume c d o r (consume_state since (query_param r (codes "state")) g)

unfoldable pub handle_logout : Codec → Disk → GoogleAuth → Request → GoogleAuth × Reply
unfolding query_param clear_google
handle_logout c d g r =
    let account = query_param r (codes "account") in
    if not (account == [])
    then (record g { store = (clear_google c d account g.store).0 }, redirect (codes "/") kept)
    else (g, redirect (codes "/") cleared)

-- `HandleAuthStatus`, where `order` is the order of its `range` over the stored tokens: whether there
-- is one, and their emails and expiries.
unfoldable pub auth_status : Map GoogleToken → Bool × List (Str × ℕ)
auth_status order = (ltb 0 (length order), map (λ entry. (entry.1.email, entry.1.expiry)) order)
