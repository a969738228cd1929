-- ===== src/Auth/Failures.antt =====
-- What a login of internal/auth/google.go that fails leaves behind.
use mathlib.Core.Path.{subst}
use openclaw_relay.Base.{
  ℕ, ◌≡◌, inl, inr, refl, true, false, none, some, [], arith, Bool-cases, Option-cases, not, ◌&&◌,
  Option,
}
use openclaw_relay.Base.Str.{Str, ◌==◌, codes}
use openclaw_relay.Base.Map.{lookup}
use openclaw_relay.Http.{Request, query_param}
use openclaw_relay.Config.{is_member}
use openclaw_relay.Tokens.{OauthToken, Codec, Disk, Store, save_google}
use openclaw_relay.Auth.Google.{
  GoogleAuth, Oauth, Reply, error, set_session, redirect, consume_state, handle_callback, resume,
  exchange_code, identify, accept,
}

module _ (hmac : Str → Str → Str) (c : Codec) (d : Disk) (o : Oauth) where
  -- The ways in which a callback ends: with a session and the token saved, with the tokens as they were
  -- and no session, or with a save that failed.
  pub data Ends (store : Store) : GoogleAuth → Reply → Type 0 where
    session :
        {g : GoogleAuth} {value : Str} (token : OauthToken) (email : Str)
        → g.store ≡ (save_google c d token email store).0
        → (save_google c d token email store).1 ≡ true
        → Ends store g (redirect (codes "/") (set_session value))
    untouched :
        {g : GoogleAuth} {reply : Reply}
        → g.store ≡ store
        → ((location value : Str) → ¬ (reply ≡ redirect location (set_session value)))
        → Ends store g reply
    not_saved :
        {g : GoogleAuth} (token : OauthToken) (email : Str)
        → g.store ≡ (save_google c d token email store).0
        → (save_google c d token email store).1 ≡ false
        → Ends store g (error (codes "Failed to save token") 500)

  error-Ends : (g : GoogleAuth) (msg : Str) (code : ℕ) → Ends g.store g (error msg code)
  error-Ends g msg code = untouched refl (λ location value e. ground (arith, e))

  accept-Ends :
      (g : GoogleAuth) (expected : Str) (token : OauthToken) (email : Str)
      → let h = accept hmac c d g expected token email in Ends g.store h.0 h.1
  unfolding accept
  accept-Ends g expected token email =
      elim (Bool-cases (not (expected == []) && not (email == expected))) [
        | inl other ↦ rw (other) (error-Ends g _ _)
        | inr right ↦ elim (Bool-cases (is_member email g.allowed_emails)) [
          | inr barred ↦ rw (right, barred) (untouched refl (λ location value e. ground (arith, e)))
          | inl allowed ↦ elim (Bool-cases (save_google c d token email g.store).1) [
            | inl saved ↦ rw (right, allowed, saved) (session token email refl saved)
            | inr lost ↦ rw (right, allowed, lost) (not_saved token email refl lost)
          ]
        ]
      ]

  identify-Ends :
      (g : GoogleAuth) (expected : Str) (token : OauthToken)
      → let h = identify hmac c d o g expected token in Ends g.store h.0 h.1
  unfolding identify
  identify-Ends g expected token = elim (Bool-cases (o.can_serve token)) [
    | inr bad ↦ rw (bad) (error-Ends g _ _)
    | inl good ↦ elim (Option-cases (o.userinfo_email token)) [
      | inl lacking ↦ rw (good, lacking) (error-Ends g _ _)
      | inr (email, got) ↦ rw (good, got) (accept-Ends g expected token email)
    ]
  ]

  exchange_code-Ends :
      (g : GoogleAuth) (expected : Str) (r : Request)
      → let h = exchange_code hmac c d o g expected r in Ends g.store h.0 h.1
  unfolding exchange_code
  exchange_code-Ends g expected r = elim (Bool-cases (query_param r (codes "code") == [])) [
    | inl bad ↦ rw (bad) (error-Ends g _ _)
    | inr good ↦ elim (Option-cases (o.exchange (query_param r (codes "code")))) [
      | inl lacking ↦ rw (good, lacking) (error-Ends g _ _)
      | inr (token, got) ↦ rw (good, got) (identify-Ends g expected token)
    ]
  ]

  resume-Ends :
      (g : GoogleAuth) (expected : Option Str) (r : Request)
      → let h = resume hmac c d o r (g, expected) in Ends g.store h.0 h.1
  unfolding resume
  resume-Ends g none r = error-Ends g _ _
  resume-Ends g (some expected) r = exchange_code-Ends g expected r

  store-consume_state :
      (since : ℕ) (state : Str) (g : GoogleAuth) → (consume_state since state g).0.store ≡ g.store
  unfolding consume_state
  store-consume_state since state g = elim (Option-cases (lookup state g.state_to_email)) [
    | inl missing ↦ rw (missing, consume_state) refl
    | inr (entry, found) ↦ rw (found, consume_state) refl
  ]

  -- A callback ends in one of three ways: with a session after the token was saved; without a session and
  -- with the tokens and their file as they were; or with the answer that the token could not be saved,
  -- after a save that failed, with what it left. Whatever fails, no other session or token comes of it.
  pub handle_callback-Ends :
      (since : ℕ) (g : GoogleAuth) (r : Request)
      → Ends g.store
          (handle_callback hmac c d o since g r).0
          (handle_callback hmac c d o since g r).1
  unfolding handle_callback
  handle_callback-Ends since g r =
      let consumed = consume_state since (query_param r (codes "state")) g in
      subst (λ s. Ends s (resume hmac c d o r consumed).0 (resume hmac c d o r consumed).1)
        (store-consume_state since (query_param r (codes "state")) g)
        (resume-Ends consumed.0 consumed.1 r)
