-- ===== src/Config/Accounts.antt =====
-- What `Validate` and `ResolvedAccounts` guarantee of the Gmail accounts.
use openclaw_relay.Base.{
  false, length, ltb, ℕ, suc, ◌≡◌, ◌≢◌, ◌↔◌, ◌⊎◌, refl, true, none, List, [], ◌∷◌, arith, All, map,
}
use openclaw_relay.Base.Str.{IsListed, Str, eq_iff}
use openclaw_relay.Config.{
  GmailAccountConf, Config, is_member, check_accounts, has_rules, validate, inherit,
  resolved_accounts,
}

pub is_member_iff : (e : Str) (xs : List Str) → (is_member e xs ≡ true) ↔ IsListed e xs
unfolding is_member
is_member_iff e [] = ground arith
is_member_iff e (x ∷ xs) = ground (arith, eq_iff x e, is_member_iff e xs)

-- An account that `Validate` accepts under the list of allowed addresses.
abbrev pub IsAccepted : List Str → GmailAccountConf → Type 0
IsAccepted allowed acc = (acc.email ≢ []) × ((allowed ≡ []) ⊎ IsListed acc.email allowed)

check_accounts_iff :
    (allowed : List Str) (i : ℕ) (accounts : List GmailAccountConf)
    → (check_accounts allowed i accounts ≡ none) ↔ All (IsAccepted allowed) accounts
unfolding check_accounts
check_accounts_iff allowed i [] = (λ _. tt, λ _. refl)
check_accounts_iff [] i (acc ∷ accounts) =
    ground (arith, eq_iff acc.email [], check_accounts_iff [] (suc i) accounts)
check_accounts_iff (e ∷ allowed) i (acc ∷ accounts) = ground (
  arith,
  eq_iff acc.email [],
  is_member_iff acc.email (e ∷ allowed),
  check_accounts_iff (e ∷ allowed) (suc i) accounts,
)

-- Something is to be sent to the gateway: there are Trello rules, a GitHub secret, or Gmail is enabled.
abbrev pub Sends : Config → Type 0
Sends c = (c.trello.rules ≢ []) ⊎ (c.github.secret ≢ []) ⊎ (c.gmail.enabled ≡ true)

length_zero_iff : {A : Type 0} (xs : List A) → (ltb 0 (length xs) ≡ false) ↔ (xs ≡ [])
length_zero_iff [] = ground arith
length_zero_iff (x ∷ xs) = ground arith

has_rules_iff : (c : Config) → (has_rules c ≡ true) ↔ Sends c
unfolding has_rules
has_rules_iff c = ground (arith, length_zero_iff c.trello.rules, eq_iff c.github.secret [])

-- `Validate` accepts a configuration exactly when a gateway URL is set if there are Trello rules, a GitHub
-- secret, or Gmail is enabled, and, if Gmail is enabled, each account has an address which is one of the
-- allowed addresses if there are any.
pub validate-eq-none_iff :
    (c : Config)
    → (validate c ≡ none) ↔ (
        (Sends c → c.gateway.url ≢ [])
        × (c.gmail.enabled ≡ true → All (IsAccepted c.google.allowed_emails) c.gmail.accounts))
unfolding validate
validate-eq-none_iff c =
    let loop = check_accounts_iff c.google.allowed_emails 0 c.gmail.accounts in
    let asked = has_rules_iff c in ground (arith, loop, asked, eq_iff c.gateway.url [])

-- The accounts that the server starts pollers for have the addresses that `Validate` accepted.
pub resolved_accounts-IsAccepted :
    (c : Config)
    → validate c ≡ none
    → c.gmail.enabled ≡ true
    → All (IsAccepted c.google.allowed_emails) (resolved_accounts c.gmail)
unfolding resolved_accounts
resolved_accounts-IsAccepted c valid enabled =
    inherited c.gmail.accounts (((validate-eq-none_iff c).0 valid).1 enabled)
  where
    one : (a : GmailAccountConf) → (inherit c.gmail.poll_interval a).email ≡ a.email
    one a = ground arith

    inherited :
        (accounts : List GmailAccountConf)
        → All (IsAccepted c.google.allowed_emails) accounts
        → All (IsAccepted c.google.allowed_emails) (map (inherit c.gmail.poll_interval) accounts)
    inherited [] h = tt
    inherited (a ∷ accounts) h = (rw (one a) h.0, inherited accounts h.1)
