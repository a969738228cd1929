-- ===== src/Server/Renewal.antt =====
-- What `getService` of internal/gmail/client.go does to the token store, behind the requests to the API
-- of Gmail: it may renew the token of the account.
use mathlib.Core.Path.{subst}
use openclaw_relay.Base.{
  ◌≡◌, ◌⊎◌, inl, inr, refl, sym, ap, ◌∙◌, not, some, [], ◌∷◌, arith, if◌then◌else◌, Bool-cases,
  Option-cases,
}
use openclaw_relay.Base.Str.{Str, ◌==◌}
use openclaw_relay.Base.Map.{Map, lookup}
use openclaw_relay.Tokens.{
  OauthToken, GoogleToken, Codec, Disk, Store, get_google, get_google_oauth2_token, refreshed,
  account_or_first, update_google_access_token,
}
use openclaw_relay.Tokens.Laws.{stored-save, update_account_found}
use openclaw_relay.Auth.Google.{GoogleAuth}
use openclaw_relay.Auth.Accounts.{connected, Grows, Grows-same, Grows-insert}
use openclaw_relay.Gmail.{OrError}
use openclaw_relay.Gmail.Client.Requests.{TokenSource, keep_fresh, get_service}

-- What the OAuth library is asked to renew.
abbrev pub oauth_of : GoogleToken → OauthToken
oauth_of t = record {
  access_token = t.access_token;
  refresh_token = t.refresh_token;
  token_type = t.token_type;
  expiry = t.expiry;
}

abbrev pub refresh_or : Str → Str → Str
refresh_or [] old = old
refresh_or (c ∷ s) old = c ∷ s

-- The stored token with what is new; the refresh token is kept if there is no other.
abbrev pub renewal : OauthToken → GoogleToken → GoogleToken
renewal new old = record {
  access_token = new.access_token;
  refresh_token = refresh_or new.refresh_token old.refresh_token;
  token_type = old.token_type;
  expiry = new.expiry;
  email = old.email;
}

-- The token that was stored for the account is renewed by the OAuth library.
pub record IsRenewed (source : TokenSource) (before : Map GoogleToken) (k : Str) (t : GoogleToken)
    : Type 0 where
  pub old : GoogleToken
  pub new : OauthToken
  pub stored : lookup k before ≡ some old
  pub renewed : source.refresh (oauth_of old) ≡ inr new
  pub same : t ≡ renewal new old

refresh_or_lem : (new old : Str) → (if not (new == []) then new else old) ≡ refresh_or new old
refresh_or_lem [] old = unfold ◌==◌ in refl
refresh_or_lem (c ∷ s) old = unfold ◌==◌ in refl

module _ (c : Codec) (d : Disk) (source : TokenSource) where
  refreshed-renewal : (new : OauthToken) (old : GoogleToken) → refreshed c new old ≡ renewal new old
  unfolding refreshed
  refreshed-renewal new old =
      ap
        (λ s. record {
          access_token = new.access_token;
          refresh_token = s;
          token_type = old.token_type;
          expiry = new.expiry;
          email = old.email;
        })
        (refresh_or_lem new.refresh_token old.refresh_token)

  token_stored :
      (email : Str) (s : Store) (found : OauthToken)
      → get_google_oauth2_token [] email s ≡ some found
      → (old : GoogleToken) × (lookup email s.stored.google_by_email ≡ some old)
        × (found ≡ oauth_of old)
  unfolding get_google_oauth2_token get_google
  token_stored email s found h = elim (Bool-cases (email == [])) [
    | inl missing ↦ absurd (ground (arith, h, missing))
    | inr named ↦ elim (Option-cases (lookup email s.stored.google_by_email)) [
      | inl lacking ↦ absurd (ground (arith, h, named, lacking))
      | inr (old, there) ↦ (old, there, ground (arith, h, named, there))
    ]
  ]

  keep_fresh-Grows :
      (email : Str) (g : GoogleAuth) (old : GoogleToken) (new : OauthToken)
      → lookup email (connected g) ≡ some old
      → source.refresh (oauth_of old) ≡ inr new
      → Grows
          (λ k t. (k ≡ email) × IsRenewed source (connected g) k t)
          g
          (record g { store = keep_fresh c d source email (oauth_of old) new g.store })
  unfolding keep_fresh update_google_access_token account_or_first
  keep_fresh-Grows email g old new there renewed =
      let P = λ (k : Str) (t : GoogleToken). (k ≡ email) × IsRenewed source (connected g) k t in
      elim (Bool-cases (not (new.access_token == old.access_token))) [
        | inr same ↦ rw (same) (Grows-same P g g refl refl)
        | inl other ↦
            rw (other, update_account_found c d new email g.store old there)
              (Grows-insert P g _ email (refreshed c new old) refl
                (ap (λ t. t.google_by_email) (stored-save c d _))
                (
                  refl,
                  record {
                    old = old;
                    new = new;
                    stored = there;
                    renewed = renewed;
                    same = refreshed-renewal new old;
                  },
                ))
      ]

  -- The store is as it was, or `keep_fresh` was called for a stored token that the library renewed.
  get_service_store :
      (email : Str) (s : Store)
      → ((get_service c d source email s).0 ≡ s)
        ⊎ ((old : GoogleToken) × (new : OauthToken) × (lookup email s.stored.google_by_email
              ≡ some old)
            × (source.refresh (oauth_of old) ≡ inr new)
            × ((get_service c d source email s).0
                ≡ keep_fresh c d source email (oauth_of old) new s))
  unfolding get_service
  get_service_store email s = elim (Option-cases (get_google_oauth2_token [] email s)) [
    | inl lacking ↦ inl (rw (lacking, get_service) refl)
    | inr (found, there) ↦ of_answer found there (source.refresh found) refl
  ]
    where
      of_answer :
          (found : OauthToken)
          → get_google_oauth2_token [] email s ≡ some found
          → (answer : OrError OauthToken) → source.refresh found ≡ answer
          → ((get_service c d source email s).0 ≡ s)
            ⊎ ((old : GoogleToken) × (new : OauthToken) × (lookup email s.stored.google_by_email
                  ≡ some old)
                × (source.refresh (oauth_of old) ≡ inr new)
                × ((get_service c d source email s).0
                    ≡ keep_fresh c d source email (oauth_of old) new s))
      of_answer found there (inl err) e = inl (rw (there, e, get_service) refl)
      of_answer found there (inr new) e =
          let (old, stored, same) = token_stored email s found there in
          inr (
            old,
            new,
            stored,
            ap source.refresh (sym same) ∙ e,
            rw (there, e, get_service) (ap (λ o. keep_fresh c d source email o new s) same),
          )

  pub get_service-Grows :
      (email : Str) (g : GoogleAuth)
      → Grows
          (λ k t. (k ≡ email) × IsRenewed source (connected g) k t)
          g
          (record g { store = (get_service c d source email g.store).0 })
  get_service-Grows email g = elim (get_service_store email g.store) [
    | inl idle ↦ Grows-same _ g _ refl (ap (λ s. s.stored.google_by_email) idle)
    | inr (old, new, stored, renewed, same) ↦
        subst
          (λ s.
            Grows (λ k t. (k ≡ email) × IsRenewed source (connected g) k t) g
              (record g { store = s }))
          (sym same) (keep_fresh-Grows email g old new stored renewed)
  ]
