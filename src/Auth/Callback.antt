-- ===== src/Auth/Callback.antt =====
-- The callback of the Google login of internal/auth/google.go: a session for the user that Google names,
-- once for each state.
use mathlib.Core.Path.{subst}
use openclaw_relay.Base.{
  ℕ, ◌+◌, ◌≤◌, ◌≡◌, ◌≢◌, ◌⊎◌, inl, inr, refl, sym, ap, ◌∙◌, true, false, Option, none, some, [],
  arith, if◌then◌else◌, Bool-cases, Option-cases,
}
use openclaw_relay.Base.Str.{Str, codes, eq_refl}
use openclaw_relay.Base.Map.{lookup, delete, lookup-delete, HasUniqueKeys}
use openclaw_relay.Encoding.RoundTrip.{IsBytes}
use openclaw_relay.Http.{Request, query_param}
use openclaw_relay.Config.{is_member}
use openclaw_relay.Tokens.{OauthToken, Codec, Disk, save_google}
use openclaw_relay.Auth.{session_value}
use openclaw_relay.Auth.Session.{Names, session_value-Names}
use openclaw_relay.Auth.Google.{
  StateEntry, GoogleAuth, Oauth, set_session, error, redirect, dashboard, state_ttl, is_stale,
  consume_state, handle_root, exchange_code, handle_callback, resume,
}
use openclaw_relay.Auth.Login.{handle_root-dashboard, exchange_code_sound, exchange_code_states}

module _ (hmac : Str → Str → Str) (c : Codec) (d : Disk) (o : Oauth) where
  -- Why a reply sets a session cookie for the email.
  pub record IsLogin (since : ℕ) (g : GoogleAuth) (r : Request) (value email : Str) : Type 0 where
    pub entry : StateEntry
    pub token : OauthToken
    pub known : lookup (query_param r (codes "state")) g.state_to_email ≡ some entry
    pub in_time : since ≤ entry.created_at + state_ttl
    pub exchanged : o.exchange (query_param r (codes "code")) ≡ some token
    pub named : o.userinfo_email token ≡ some email
    pub asked_for : (entry.email ≡ []) ⊎ (entry.email ≡ email)
    pub allowed : is_member email g.allowed_emails ≡ true
    pub stored : (save_google c d token email g.store).1 ≡ true
    pub signed : value ≡ session_value hmac email g.enc_key

  -- The ways a state can be consumed.
  pub callback_unknown :
      (since : ℕ) (g : GoogleAuth) (r : Request)
      → lookup (query_param r (codes "state")) g.state_to_email ≡ none
      → handle_callback hmac c d o since g r ≡ (g, error (codes "invalid state") 400)
  unfolding handle_callback consume_state
  callback_unknown since g r h = simp (handle_callback, consume_state, h)

  abbrev used : Request → GoogleAuth → GoogleAuth
  used r g = record g { state_to_email = delete (query_param r (codes "state")) g.state_to_email }

  consumed_known :
      (since : ℕ) (g : GoogleAuth) (r : Request) (entry : StateEntry) (answer : Option Str)
      → lookup (query_param r (codes "state")) g.state_to_email ≡ some entry
      → (if is_stale since entry then none else some entry.email) ≡ answer
      → consume_state since (query_param r (codes "state")) g ≡ (used r g, answer)
  unfolding consume_state
  consumed_known since g r entry answer h e = simp (consume_state, h, e)

  callback_known :
      (since : ℕ) (g : GoogleAuth) (r : Request) (entry : StateEntry)
      → lookup (query_param r (codes "state")) g.state_to_email ≡ some entry
      → handle_callback hmac c d o since g r ≡ (
          if is_stale since entry
          then (used r g, error (codes "invalid state") 400)
          else exchange_code hmac c d o (used r g) entry.email r)
  unfolding handle_callback resume
  callback_known since g r entry h = elim (Bool-cases (is_stale since entry)) [
    | inl old ↦
        rw (old) (ap (resume hmac c d o r) (consumed_known since g r entry none h (rw (old) refl)))
    | inr fresh ↦ rw (fresh) (
        ap (resume hmac c d o r)
          (consumed_known since g r entry (some entry.email) h (rw (fresh) refl)))
  ]

  is_stale-eq-false :
      (since : ℕ) (entry : StateEntry)
      → is_stale since entry ≡ false
      → since ≤ entry.created_at + state_ttl
  unfolding is_stale
  is_stale-eq-false since entry h = ground (arith, h)

  known_or_not :
      (since : ℕ) (g : GoogleAuth) (r : Request)
      → (handle_callback hmac c d o since g r ≡ (g, error (codes "invalid state") 400))
        ⊎ (handle_callback hmac c d o since g r ≡ (used r g, error (codes "invalid state") 400))
        ⊎ ((entry : StateEntry) × (lookup (query_param r (codes "state")) g.state_to_email
              ≡ some entry)
            × (since ≤ entry.created_at + state_ttl)
            × (handle_callback hmac c d o since g r
                ≡ exchange_code hmac c d o (used r g) entry.email r))
  known_or_not since g r =
      elim (Option-cases (lookup (query_param r (codes "state")) g.state_to_email)) [
        | inl unknown ↦ inl (callback_unknown since g r unknown)
        | inr (entry, known) ↦ elim (Bool-cases (is_stale since entry)) [
          | inl old ↦ inr (inl (rw (old) at (callback_known since g r entry known)))
          | inr fresh ↦ inr (
              inr (
                entry,
                known,
                is_stale-eq-false since entry fresh,
                rw (fresh) at (callback_known since g r entry known),
              ))
        ]
      ]

  -- A callback that sets a session cookie comes with a state that is known and at most 10 minutes old,
  -- and with a code that is exchanged for a token; the cookie is signed for the email that Google names
  -- for the token, which is an allowed one and the one that the state asks for, if it asks for one; and
  -- the token has been saved without an error.
  pub handle_callback-IsLogin :
      (since : ℕ) (g : GoogleAuth) (r : Request) (location value : Str)
      → (handle_callback hmac c d o since g r).1 ≡ redirect location (set_session value)
      → (email : Str) × IsLogin since g r value email
  handle_callback-IsLogin since g r location value h = elim (known_or_not since g r) [
    | inl refused ↦ absurd (ground (arith, h, ap (λ x. x.1) refused))
    | inr (inl refused) ↦ absurd (ground (arith, h, ap (λ x. x.1) refused))
    | inr (inr (entry, known, fresh, same)) ↦
        let (token, email, exchanged, named, ok) =
          exchange_code_sound hmac c d o (used r g) entry.email r location value
            (ap (λ x. x.1) (sym same) ∙ h) in
        (
          email,
          record {
            entry = entry;
            token = token;
            known = known;
            in_time = fresh;
            exchanged = exchanged;
            named = named;
            asked_for = ok.asked_for;
            allowed = ok.allowed;
            stored = ok.stored;
            signed = ok.signed;
          },
        )
  ]

  pub gone :
      (since : ℕ) (g : GoogleAuth) (r : Request)
      → HasUniqueKeys g.state_to_email
      → lookup
          (query_param r (codes "state"))
          (handle_callback hmac c d o since g r).0.state_to_email
        ≡ none
  gone since g r unique =
      let key = query_param r (codes "state") in
      let deleted : lookup key (delete key g.state_to_email) ≡ none =
        ground (arith, lookup-delete key key g.state_to_email unique, eq_refl key) in
      elim (Option-cases (lookup key g.state_to_email)) [
        | inl unknown ↦
            ap (λ x. lookup key x.0.state_to_email) (callback_unknown since g r unknown) ∙ unknown
        | inr (entry, known) ↦
            ap (λ x. lookup key x.0.state_to_email) (callback_known since g r entry known)
            ∙ elim (Bool-cases (is_stale since entry)) [
              | inl old ↦ rw (old) deleted
              | inr fresh ↦ rw (fresh) (
                  ap (lookup key) (exchange_code_states hmac c d o (used r g) entry.email r).0
                  ∙ deleted)
            ]
      ]

  -- A state serves one callback only, where the known states are a map with unique keys: whatever a first
  -- callback came to, a second with the same state right behind it is refused and changes nothing.
  pub handle_callback_twice :
      (since since' : ℕ) (g : GoogleAuth) (r r' : Request)
      → HasUniqueKeys g.state_to_email
      → query_param r' (codes "state") ≡ query_param r (codes "state")
      → handle_callback hmac c d o since' (handle_callback hmac c d o since g r).0 r'
        ≡ ((handle_callback hmac c d o since g r).0, error (codes "invalid state") 400)
  handle_callback_twice since since' g r r' unique same =
      let g' = (handle_callback hmac c d o since g r).0 in
      callback_unknown since' g' r'
        (ap (λ k. lookup k g'.state_to_email) same ∙ gone since g r unique)

  kept_guards :
      (since : ℕ) (g : GoogleAuth) (r : Request)
      → ((handle_callback hmac c d o since g r).0.enc_key ≡ g.enc_key)
        × ((handle_callback hmac c d o since g r).0.allowed_emails ≡ g.allowed_emails)
  kept_guards since g r = elim (known_or_not since g r) [
    | inl refused ↦ (ap (λ x. x.0.enc_key) refused, ap (λ x. x.0.allowed_emails) refused)
    | inr (inl refused) ↦ (ap (λ x. x.0.enc_key) refused, ap (λ x. x.0.allowed_emails) refused)
    | inr (inr (entry, _, _, same)) ↦
        let (_, key, emails) = exchange_code_states hmac c d o (used r g) entry.email r in
        (ap (λ x. x.0.enc_key) same ∙ key, ap (λ x. x.0.allowed_emails) same ∙ emails)
  ]

  -- The session cookie that a callback sets lets its user in: a request for the root page with this
  -- cookie right behind the callback is shown the dashboard of the email that Google named, if the emails
  -- that Google names are texts of bytes and not empty.
  pub handle_callback-dashboard :
      (since : ℕ) (g : GoogleAuth) (r r' : Request) (location value : Str)
      → ((token : OauthToken) (email : Str)
          → o.userinfo_email token ≡ some email
          → (email ≢ []) × IsBytes email)
      → (handle_callback hmac c d o since g r).1 ≡ redirect location (set_session value)
      → r'.path ≡ codes "/"
      → lookup (codes "relay_session") r'.cookies ≡ some value
      → (email : Str) × IsLogin since g r value email
        × (handle_root hmac (handle_callback hmac c d o since g r).0 r' ≡ dashboard email)
  handle_callback-dashboard since g r r' location value texts h at_root cookie =
      let (email, login) = handle_callback-IsLogin since g r location value h in
      let (ne, bytes) = texts login.token email login.named in
      let g' = (handle_callback hmac c d o since g r).0 in
      let (key, emails) = kept_guards since g r in
      let names : Names hmac g'.enc_key value email =
        subst (λ v. Names hmac g'.enc_key v email)
          (ap (session_value hmac email) key ∙ sym login.signed)
          (session_value-Names hmac g'.enc_key email bytes) in
      (
        email,
        login,
        (handle_root-dashboard hmac g' r' email).1
            (at_root, ne, (value, cookie, names), ap (is_member email) emails ∙ login.allowed),
      )
