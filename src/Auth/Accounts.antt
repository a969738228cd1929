-- ===== src/Auth/Accounts.antt =====
-- Which Google accounts the handlers of internal/auth/google.go connect: the entries of the token store.
use mathlib.Core.Path.{subst}
use mathlib.Core.Option.{some-injective, none-ne-some}
use openclaw_relay.Base.{
  ◌≡◌, ◌⊎◌, inl, inr, sym, ap, ◌∙◌, none, some, List, if◌then◌else◌, Bool-cases,
}
use openclaw_relay.Base.Str.{IsListed, Str, ◌==◌, codes, eq_iff}
use openclaw_relay.Base.Map.{
  Map, HasUniqueKeys, lookup, lookup-insert, lookup-delete, insert-HasUniqueKeys,
  delete-HasUniqueKeys, insert, delete,
}
use openclaw_relay.Http.{Request, query_param}
use openclaw_relay.Tokens.{OauthToken, GoogleToken}
use openclaw_relay.Auth.Google.{GoogleAuth, Oauth}

abbrev pub connected : GoogleAuth → Map GoogleToken
connected g = g.store.stored.google_by_email

-- Every token that is there after was there before, or `P` holds of it and its account.
pub record Grows (P : Str → GoogleToken → Type 0) (g g' : GoogleAuth) : Type 0 where
  pub rules : g'.allowed_emails ≡ g.allowed_emails
  pub unique : HasUniqueKeys (connected g) → HasUniqueKeys (connected g')
  pub origin :
      HasUniqueKeys (connected g)
      → (k : Str) (t : GoogleToken) → lookup k (connected g') ≡ some t
      → (lookup k (connected g) ≡ some t) ⊎ P k t

pub Grows-same :
    (P : Str → GoogleToken → Type 0) (g g' : GoogleAuth)
    → g'.allowed_emails ≡ g.allowed_emails
    → connected g' ≡ connected g
    → Grows P g g'
Grows-same P g g' rules same = record {
  rules = rules;
  unique = subst HasUniqueKeys (sym same);
  origin = λ unique k t h. inl (ap (lookup k) (sym same) ∙ h);
}

pub Grows-insert :
    (P : Str → GoogleToken → Type 0) (g g' : GoogleAuth) (k : Str) (t : GoogleToken)
    → g'.allowed_emails ≡ g.allowed_emails
    → connected g' ≡ insert k t (connected g)
    → P k t
    → Grows P g g'
Grows-insert P g g' k t rules added holds = record {
  rules = rules;
  unique =
      λ unique. subst HasUniqueKeys (sym added) (insert-HasUniqueKeys k t (connected g) unique);
  origin = λ unique j found there.
      let at : (if k == j then some t else lookup j (connected g)) ≡ some found =
        sym (lookup-insert k j t (connected g)) ∙ ap (lookup j) (sym added) ∙ there in
      elim (Bool-cases (k == j)) [
        | inr other ↦ inl (rw (other) at at)
        | inl here ↦ inr (
            subst (λ i. P i found) ((eq_iff k j).0 here)
              (subst (P k) (some-injective t found (rw (here) at at)) holds))
      ];
}

pub Grows-delete :
    (P : Str → GoogleToken → Type 0) (g g' : GoogleAuth) (k : Str)
    → g'.allowed_emails ≡ g.allowed_emails
    → connected g' ≡ delete k (connected g)
    → Grows P g g'
Grows-delete P g g' k rules removed = record {
  rules = rules;
  unique =
      λ unique. subst HasUniqueKeys (sym removed) (delete-HasUniqueKeys k (connected g) unique);
  origin = λ unique j found there.
      let at : (if k == j then none else lookup j (connected g)) ≡ some found =
        sym (lookup-delete k j (connected g) unique) ∙ ap (lookup j) (sym removed) ∙ there in
      elim (Bool-cases (k == j)) [
        | inr other ↦ inl (rw (other) at at)
        | inl here ↦ absurd (none-ne-some found (rw (here) at at))
      ];
}

abbrev pub token_of : OauthToken → Str → GoogleToken
token_of token email = record {
  access_token = token.access_token;
  refresh_token = token.refresh_token;
  token_type = token.token_type;
  expiry = token.expiry;
  email = email;
}

pub Grows-weaken :
    (P Q : Str → GoogleToken → Type 0) (g g' : GoogleAuth)
    → ((k : Str) (t : GoogleToken) → P k t → Q k t)
    → Grows P g g'
    → Grows Q g g'
Grows-weaken P Q g g' weaker h = record {
  rules = h.rules;
  unique = h.unique;
  origin = λ unique k t there. elim (h.origin unique k t there) [
    | inl before ↦ inl before
    | inr holds ↦ inr (weaker k t holds)
  ];
}

module _ (o : Oauth) (allowed : List Str) (r : Request) where
  -- The request brings a code for which Google gives the token, and names the account as its user; the
  -- account is one of those allowed.
  pub record IsBrought (k : Str) (t : GoogleToken) : Type 0 where
    pub token : OauthToken
    pub exchanged : o.exchange (query_param r (codes "code")) ≡ some token
    pub named : o.userinfo_email token ≡ some k
    pub member : IsListed k allowed
    pub same : t ≡ token_of token k
