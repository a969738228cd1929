-- ===== src/Auth/Login.antt =====
-- The Google login of internal/auth/google.go: who gets a session, and who sees the dashboard.
use openclaw_relay.Base.{
  ◌≡◌, ◌≢◌, ◌↔◌, ◌⊎◌, inl, inr, refl, sym, ap, ◌∙◌, true, false, some, [], arith, Bool-cases,
  Option-cases,
}
use openclaw_relay.Base.Str.{Str, ◌==◌, codes, eq_iff, eq_of_ne}
use openclaw_relay.Http.{Request, query_param}
use openclaw_relay.Config.{is_member}
use openclaw_relay.Tokens.{OauthToken, Codec, Disk, save_google}
use openclaw_relay.Auth.{session_value, get_session_email}
use openclaw_relay.Auth.Session.{HasSession, get_session_email_iff}
use openclaw_relay.Auth.Google.{
  GoogleAuth, Oauth, set_session, redirect, dashboard, handle_root, accept, identify, exchange_code,
}

module _ (hmac : Str → Str → Str) where
  dashboard_form :
      (g : GoogleAuth) (r : Request) (email : Str)
      → (handle_root hmac g r ≡ dashboard email) ↔ (
          ((r.path == codes "/") ≡ true)
          × ((get_session_email hmac r g.enc_key == []) ≡ false)
          × (is_member (get_session_email hmac r g.enc_key) g.allowed_emails ≡ true)
          × (get_session_email hmac r g.enc_key ≡ email))
  unfolding handle_root
  dashboard_form g r email = ground arith

  -- The dashboard is shown to an email exactly if the request is for the root page, has a session cookie
  -- signed for this email, and the email is one of those allowed.
  pub handle_root-dashboard :
      (g : GoogleAuth) (r : Request) (email : Str)
      → (handle_root hmac g r ≡ dashboard email) ↔ (
          (r.path ≡ codes "/")
          × (email ≢ [])
          × HasSession hmac g.enc_key r email
          × (is_member email g.allowed_emails ≡ true))
  handle_root-dashboard g r email = (
    λ h.
        let (at_root, there, member, same) = (dashboard_form g r email).0 h in
        let ne : email ≢ [] = λ e. ground (arith, there, same, e, eq_iff email []) in
        (
          (eq_iff r.path (codes "/")).0 at_root,
          ne,
          (get_session_email_iff hmac r g.enc_key email ne).0 same,
          ap (λ e. is_member e g.allowed_emails) (sym same) ∙ member,
        ),
    λ (at_root, ne, session, member).
        let same = (get_session_email_iff hmac r g.enc_key email ne).1 session in
        (dashboard_form g r email).1 (
          (eq_iff r.path (codes "/")).1 at_root,
          ap (λ e. e == []) same ∙ eq_of_ne email [] ne,
          ap (λ e. is_member e g.allowed_emails) same ∙ member,
          same,
        ),
  )

module _ (hmac : Str → Str → Str) (c : Codec) (d : Disk) (o : Oauth) where
  -- The states, the key and the allowed emails are the same.
  abbrev pub Keeps : GoogleAuth → GoogleAuth → Type 0
  Keeps g' g =
      (g'.state_to_email ≡ g.state_to_email)
      × (g'.enc_key ≡ g.enc_key)
      × (g'.allowed_emails ≡ g.allowed_emails)

  -- what `accept` has checked
  pub record IsAccepted (g : GoogleAuth) (expected : Str) (token : OauthToken) (value email : Str)
      : Type 0 where
    pub asked_for : (expected ≡ []) ⊎ (expected ≡ email)
    pub allowed : is_member email g.allowed_emails ≡ true
    pub stored : (save_google c d token email g.store).1 ≡ true
    pub signed : value ≡ session_value hmac email g.enc_key

  accept_sound :
      (g : GoogleAuth) (expected : Str) (token : OauthToken) (email location value : Str)
      → (accept hmac c d g expected token email).1 ≡ redirect location (set_session value)
      → IsAccepted g expected token value email
  unfolding accept
  accept_sound g expected token email location value h = record {
    asked_for = ground (arith, h, eq_iff expected [], eq_iff email expected);
    allowed = ground (arith, h);
    stored = ground (arith, h);
    signed = ground (arith, h);
  }

  accept_states :
      (g : GoogleAuth) (expected : Str) (token : OauthToken) (email : Str)
      → Keeps (accept hmac c d g expected token email).0 g
  unfolding accept
  accept_states g expected token email = ground arith

  identify_sound :
      (g : GoogleAuth) (expected : Str) (token : OauthToken) (location value : Str)
      → (identify hmac c d o g expected token).1 ≡ redirect location (set_session value)
      → (email : Str) × (o.userinfo_email token ≡ some email)
        × IsAccepted g expected token value email
  unfolding identify
  identify_sound g expected token location value h = elim (Bool-cases (o.can_serve token)) [
    | inr bad ↦ absurd (ground (arith, h, bad))
    | inl good ↦ elim (Option-cases (o.userinfo_email token)) [
      | inl lacking ↦ absurd (ground (arith, h, good, lacking))
      | inr (email, got) ↦ (
        email,
        got,
        accept_sound g expected token email location value
            (ap (λ x. x.1) (sym (identified g expected token email good got)) ∙ h),
      )
    ]
  ]
    where
      identified :
          (g : GoogleAuth) (expected : Str) (token : OauthToken) (email : Str)
          → o.can_serve token ≡ true
          → o.userinfo_email token ≡ some email
          → identify hmac c d o g expected token ≡ accept hmac c d g expected token email
      identified g expected token email good got = simp (identify, good, got)

  identify_states :
      (g : GoogleAuth) (expected : Str) (token : OauthToken)
      → Keeps (identify hmac c d o g expected token).0 g
  unfolding identify
  identify_states g expected token = elim (Bool-cases (o.can_serve token)) [
    | inr bad ↦ simp (identify, bad) (refl, refl, refl)
    | inl good ↦ elim (Option-cases (o.userinfo_email token)) [
      | inl lacking ↦ simp (identify, good, lacking) (refl, refl, refl)
      | inr (email, got) ↦ simp (identify, good, got) (accept_states g expected token email)
    ]
  ]

  pub exchange_code_sound :
      (g : GoogleAuth) (expected : Str) (r : Request) (location value : Str)
      → (exchange_code hmac c d o g expected r).1 ≡ redirect location (set_session value)
      → (token : OauthToken) × (email : Str) × (o.exchange (query_param r (codes "code"))
          ≡ some token)
        × (o.userinfo_email token ≡ some email)
        × IsAccepted g expected token value email
  unfolding exchange_code
  exchange_code_sound g expected r location value h =
      elim (Bool-cases (query_param r (codes "code") == [])) [
        | inl bad ↦ absurd (ground (arith, h, bad))
        | inr good ↦ elim (Option-cases (o.exchange (query_param r (codes "code")))) [
          | inl lacking ↦ absurd (ground (arith, h, good, lacking))
          | inr (token, got) ↦
              let (email, named, accepted) =
                identify_sound g expected token location value
                  (ap (λ x. x.1) (sym (exchanged_as g expected token r good got)) ∙ h) in
              (token, email, got, named, accepted)
        ]
      ]
    where
      exchanged_as :
          (g : GoogleAuth) (expected : Str) (token : OauthToken) (r : Request)
          → (query_param r (codes "code") == []) ≡ false
          → o.exchange (query_param r (codes "code")) ≡ some token
          → exchange_code hmac c d o g expected r ≡ identify hmac c d o g expected token
      exchanged_as g expected token r good got = simp (exchange_code, good, got)

  pub exchange_code_states :
      (g : GoogleAuth) (expected : Str) (r : Request)
      → Keeps (exchange_code hmac c d o g expected r).0 g
  unfolding exchange_code
  exchange_code_states g expected r = elim (Bool-cases (query_param r (codes "code") == [])) [
    | inl bad ↦ simp (exchange_code, bad) (refl, refl, refl)
    | inr good ↦ elim (Option-cases (o.exchange (query_param r (codes "code")))) [
      | inl lacking ↦ simp (exchange_code, good, lacking) (refl, refl, refl)
      | inr (token, got) ↦ simp (exchange_code, good, got) (identify_states g expected token)
    ]
  ]
