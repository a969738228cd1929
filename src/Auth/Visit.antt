-- ===== src/Auth/Visit.antt =====
-- A login of internal/auth/google.go that is carried through, from /auth/google/login to the session.
use openclaw_relay.Base.{
  tests, ltb, ◌&&◌, ℕ, ◌+◌, ◌≤◌, ◌≡◌, ◌≢◌, ◌⊎◌, refl, ◌∙◌, true, false, some, [], arith, not,
}
use openclaw_relay.Base.Str.{Str, ◌==◌, codes, eq_iff, eq_of_ne, eq_refl}
use openclaw_relay.Base.Map.{delete, lookup, lookup-insert}
use openclaw_relay.Encoding.{hex_encode}
use openclaw_relay.Http.{Request, query_param}
use openclaw_relay.Config.{is_member}
use openclaw_relay.Tokens.{OauthToken, Codec, Disk, save_google}
use openclaw_relay.Auth.{session_value}
use openclaw_relay.Auth.Google.{
  GoogleAuth, Oauth, state_ttl, kept, set_session, redirect, generate_state, consume_state,
  is_stale, handle_login, handle_callback, resume, exchange_code, identify, accept,
}

module _ (hmac : Str → Str → Str) (c : Codec) (d : Disk) (o : Oauth) where
  -- Google names the user of the code in the request.
  pub record IsNamed (r : Request) (token : OauthToken) (email : Str) : Type 0 where
    pub coded : query_param r (codes "code") ≢ []
    pub exchanged : o.exchange (query_param r (codes "code")) ≡ some token
    pub served : o.can_serve token ≡ true
    pub named : o.userinfo_email token ≡ some email

  handle_login_form :
      (rand : Str) (now : ℕ) (g : GoogleAuth) (r : Request)
      → (query_param r (codes "account") ≡ [])
        ⊎ (is_member (query_param r (codes "account")) g.allowed_emails ≡ true)
      → ((handle_login hmac o rand now g r).1 ≡ redirect (o.auth_code_url (hex_encode rand)) kept)
        × (lookup (hex_encode rand) (handle_login hmac o rand now g r).0.state_to_email
            ≡ some (record { email = query_param r (codes "account"); created_at = now }))
  unfolding handle_login generate_state
  handle_login_form rand now g r asked =
      let open_to_all : (not (query_param r (codes "account") == [])
            && not (is_member (query_param r (codes "account")) g.allowed_emails))
          ≡ false =
        ground (arith, asked, eq_iff (query_param r (codes "account")) []) in
      rw (open_to_all) (
        refl,
        ground (
          arith,
          lookup-insert (hex_encode rand) (hex_encode rand)
              (record { email = query_param r (codes "account"); created_at = now })
              g.state_to_email,
          eq_refl (hex_encode rand),
        ),
      )

  exchange_code_accepted :
      (g : GoogleAuth) (expected : Str) (r : Request) (token : OauthToken) (email : Str)
      → (expected ≡ []) ⊎ (expected ≡ email)
      → is_member email g.allowed_emails ≡ true
      → IsNamed r token email
      → (save_google c d token email g.store).1 ≡ true
      → (exchange_code hmac c d o g expected r).1
        ≡ redirect (codes "/") (set_session (session_value hmac email g.enc_key))
  unfolding exchange_code identify accept
  exchange_code_accepted g expected r token email asked allowed named saved =
      let coded = eq_of_ne (query_param r (codes "code")) [] named.coded in
      let expects : (not (expected == []) && not (email == expected)) ≡ false =
        ground (arith, asked, eq_iff expected [], eq_iff email expected) in
      simp (
        exchange_code, coded, named.exchanged, identify, named.served, named.named, accept, expects,
        allowed, saved,
      )

  -- A login that is carried through ends in a session: if the login page is asked for no account or for
  -- an allowed one, the callback with the state that it made, within ten minutes and with nothing done to
  -- this state in between, for a code by which Google names the account, or any allowed one if none was
  -- asked for, sets the session of its email, if the tokens can be saved.
  pub handle_login-callback :
      (rand : Str) (now since : ℕ) (g g' : GoogleAuth) (r r' : Request) (token : OauthToken)
      (email : Str)
      → (query_param r (codes "account") ≡ [])
        ⊎ ((query_param r (codes "account") ≡ email) × (is_member email g.allowed_emails ≡ true))
      → lookup (hex_encode rand) g'.state_to_email
        ≡ lookup (hex_encode rand) (handle_login hmac o rand now g r).0.state_to_email
      → since ≤ now + state_ttl
      → query_param r' (codes "state") ≡ hex_encode rand
      → IsNamed r' token email
      → is_member email g'.allowed_emails ≡ true
      → (save_google c d token email g'.store).1 ≡ true
      → ((handle_login hmac o rand now g r).1 ≡ redirect (o.auth_code_url (hex_encode rand)) kept)
        × ((handle_callback hmac c d o since g' r').1
            ≡ redirect (codes "/") (set_session (session_value hmac email g'.enc_key)))
  unfolding handle_callback consume_state is_stale resume
  handle_login-callback rand now since g g' r r' token email asked kept_state soon state named
        allowed saved =
      let account = query_param r (codes "account") in
      let may_ask : (account ≡ []) ⊎ (is_member account g.allowed_emails ≡ true) =
        ground (arith, asked) in
      let expects : (account ≡ []) ⊎ (account ≡ email) = ground (arith, asked) in
      let (sent, stored) = handle_login_form rand now g r may_ask in
      let g'' = record g' { state_to_email = delete (hex_encode rand) g'.state_to_email } in
      let fresh : ltb (now + state_ttl) since ≡ false = omega (tests, soon) in
      let consumed : consume_state since (hex_encode rand) g' ≡ (g'', some account) =
        simp (consume_state, kept_state ∙ stored, is_stale, fresh) in
      (
        sent,
        rw (state, consumed)
            (exchange_code_accepted g'' account r' token email expects allowed named saved),
      )
