-- ===== src/Auth/Connect.antt =====
-- What the handlers of internal/auth/google.go do to the Google accounts in the token store.
use mathlib.Core.Path.{subst}
use openclaw_relay.Base.{
  ℕ, ◌≡◌, inl, inr, refl, sym, ap, ◌∙◌, true, not, ◌&&◌, Option, none, some, [], if◌then◌else◌,
  Bool-cases, Option-cases,
}
use openclaw_relay.Base.Str.{Str, ◌==◌, codes}
use openclaw_relay.Base.Map.{Map, lookup, delete}
use openclaw_relay.Config.Accounts.{is_member_iff}
use openclaw_relay.Config.{is_member}
use openclaw_relay.Http.{Request, query_param}
use openclaw_relay.Tokens.{
  OauthToken, GoogleToken, Codec, Disk, Store, with_google, save_google, clear_google, save,
}
use openclaw_relay.Tokens.Laws.{stored-save}
use openclaw_relay.Auth.Google.{
  GoogleAuth, Oauth, StateEntry, accept, identify, exchange_code, resume, consume_state, is_stale,
  handle_callback, handle_logout, handle_login, generate_state,
}
use openclaw_relay.Auth.Accounts.{
  Grows, Grows-same, Grows-insert, Grows-delete, IsBrought, token_of,
}

module _ (hmac : Str → Str → Str) (c : Codec) (d : Disk) (o : Oauth) where
  accept-Grows :
      (g : GoogleAuth) (expected : Str) (r : Request) (token : OauthToken) (email : Str)
      → o.exchange (query_param r (codes "code")) ≡ some token
      → o.userinfo_email token ≡ some email
      → Grows (IsBrought o g.allowed_emails r) g (accept hmac c d g expected token email).0
  unfolding accept save_google
  accept-Grows g expected r token email exchanged named =
      let P = IsBrought o g.allowed_emails r in
      let added = λ (member : is_member email g.allowed_emails ≡ true).
        Grows-insert P g (record g { store = (save_google c d token email g.store).0 }) email
          (token_of token email) refl
          (ap (λ t. t.google_by_email)
              (stored-save c d
                (record g.store { stored = with_google c token email g.store.stored }))
            ∙ unfold with_google in refl)
          (record {
            token = token;
            exchanged = exchanged;
            named = named;
            member = (is_member_iff email g.allowed_emails).0 member;
            same = refl;
          }) in
      elim (Bool-cases (not (expected == []) && not (email == expected))) [
        | inl other ↦ rw (other) (Grows-same P g g refl refl)
        | inr right ↦ elim (Bool-cases (is_member email g.allowed_emails)) [
          | inr barred ↦ rw (right, barred) (Grows-same P g g refl refl)
          | inl allowed ↦ elim (Bool-cases (save_google c d token email g.store).1) [
            | inl saved ↦ rw (right, allowed, saved) (added allowed)
            | inr lost ↦ rw (right, allowed, lost) (added allowed)
          ]
        ]
      ]

  exchange_code-Grows :
      (g : GoogleAuth) (expected : Str) (r : Request)
      → Grows (IsBrought o g.allowed_emails r) g (exchange_code hmac c d o g expected r).0
  unfolding exchange_code identify
  exchange_code-Grows g expected r =
      let same = Grows-same (IsBrought o g.allowed_emails r) g g refl refl in
      elim (Bool-cases (query_param r (codes "code") == [])) [
        | inl bad ↦ rw (bad) same
        | inr good ↦ elim (Option-cases (o.exchange (query_param r (codes "code")))) [
          | inl lacking ↦ rw (good, lacking) same
          | inr (token, got) ↦ elim (Bool-cases (o.can_serve token)) [
            | inr dead ↦ rw (good, got, dead) same
            | inl live ↦ elim (Option-cases (o.userinfo_email token)) [
              | inl unnamed ↦ rw (good, got, live, unnamed) same
              | inr (email, named) ↦
                  rw (good, got, live, named) (accept-Grows g expected r token email got named)
            ]
          ]
        ]
      ]

  resume-Grows :
      (g : GoogleAuth) (expected : Option Str) (r : Request)
      → Grows (IsBrought o g.allowed_emails r) g (resume hmac c d o r (g, expected)).0
  unfolding resume
  resume-Grows g none r = Grows-same _ g g refl refl
  resume-Grows g (some expected) r = exchange_code-Grows g expected r

  consumed :
      (since : ℕ) (state : Str) (g : GoogleAuth)
      → (states : Map StateEntry) × (email : Option Str) × (consume_state since state g
          ≡ (record g { state_to_email = states }, email))
  unfolding consume_state
  consumed since state g = elim (Option-cases (lookup state g.state_to_email)) [
    | inl missing ↦ (g.state_to_email, none, rw (missing, consume_state) refl)
    | inr (entry, found) ↦ (
      delete state g.state_to_email,
      (if is_stale since entry then none else some entry.email),
      rw (found, consume_state) refl,
    )
  ]

  pub handle_callback-Grows :
      (since : ℕ) (g : GoogleAuth) (r : Request)
      → Grows (IsBrought o g.allowed_emails r) g (handle_callback hmac c d o since g r).0
  unfolding handle_callback
  handle_callback-Grows since g r =
      let (states, email, same) = consumed since (query_param r (codes "state")) g in
      let grown = resume-Grows (record g { state_to_email = states }) email r in
      subst (λ x. Grows (IsBrought o g.allowed_emails r) g (resume hmac c d o r x).0) (sym same)
        (record { rules = grown.rules; unique = grown.unique; origin = grown.origin })

pub handle_login-Grows :
    (P : Str → GoogleToken → Type 0) (hmac : Str → Str → Str) (o : Oauth) (rand : Str) (now : ℕ)
    (g : GoogleAuth) (r : Request)
    → Grows P g (handle_login hmac o rand now g r).0
unfolding handle_login generate_state
handle_login-Grows P hmac o rand now g r =
    let account = query_param r (codes "account") in
    elim (Bool-cases (not (account == []) && not (is_member account g.allowed_emails))) [
      | inl barred ↦ rw (barred) (Grows-same P g g refl refl)
      | inr free ↦ rw (free) (Grows-same P g _ refl refl)
    ]

pub handle_logout-Grows :
    (P : Str → GoogleToken → Type 0) (c : Codec) (d : Disk) (g : GoogleAuth) (r : Request)
    → Grows P g (handle_logout c d g r).0
unfolding handle_logout
handle_logout-Grows P c d g r =
    let account = query_param r (codes "account") in
    let without : Store = record g.store {
      stored = record g.store.stored {
        google_by_email = delete account g.store.stored.google_by_email;
      };
    } in
    elim (Bool-cases (account == [])) [
      | inl missing ↦ rw (missing) (Grows-same P g g refl refl)
      | inr named ↦
          rw (named, clear_google)
            (Grows-delete P g (record g { store = (save c d without).0 }) account refl
              (ap (λ t. t.google_by_email) (stored-save c d without)))
    ]
