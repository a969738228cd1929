-- ===== src/Auth/Markup.antt =====
-- What the data on the dashboard of internal/auth/google.go can do to its HTML.
use openclaw_relay.Base.{
  ℕ, ◌≡◌, refl, sym, ap, ◌∙◌, Bool, true, false, ◌||◌, Option, List, [], ◌∷◌, ◌++◌, arith, nat_eq,
  map, if◌then◌else◌,
}
use openclaw_relay.Base.Str.{Str, codes}
use openclaw_relay.Base.Map.{Map}
use openclaw_relay.Config.{Config}
use openclaw_relay.Tokens.{GoogleToken}
use openclaw_relay.Auth.Pages.{dashboard_head}
use openclaw_relay.Auth.Dashboard.{
  email_span, accounts_head, dashboard_rest, cards_of, escape_byte, escape_html, has_account,
  account_card, account_cards, dashboard_page,
}

-- The bytes `<`, `>`, `"` and `'`, by which HTML tells tags and attributes from text.
abbrev pub is_markup : ℕ → Bool
is_markup c = nat_eq c b'<' || nat_eq c b'>' || nat_eq c 34 || nat_eq c 39

-- These bytes of a text, in their order.
abbrev pub markup : Str → Str
markup [] = []
markup (c ∷ s) = if is_markup c then c ∷ markup s else markup s

markup-append : (s t : Str) → markup (s ++ t) ≡ markup s ++ markup t
markup-append [] t = refl
markup-append (c ∷ s) t = ground (arith, markup-append s t)

markup-escape_byte : (c : ℕ) → markup (escape_byte c) ≡ []
unfolding escape_byte codes
markup-escape_byte c = ground arith

markup-escape_html : (s : Str) → markup (escape_html s) ≡ []
unfolding escape_html
markup-escape_html [] = refl
markup-escape_html (c ∷ s) =
    markup-append (escape_byte c) (escape_html s)
    ∙ rw (markup-escape_byte c, markup-escape_html s) refl

markup-account_card :
    (connected : Bool) (email email' : Str)
    → markup (account_card connected email) ≡ markup (account_card connected email')
unfolding account_card
markup-account_card true email email' = simp (markup-append, markup-escape_html) refl
markup-account_card false email email' = simp (markup-append, markup-escape_html) refl

abbrev flags : List (Bool × Str) → List Bool
flags cards = map (λ card. card.0) cards

markup-account_cards :
    (cards cards' : List (Bool × Str))
    → flags cards ≡ flags cards'
    → markup (account_cards cards) ≡ markup (account_cards cards')
unfolding account_cards
markup-account_cards [] [] h = refl
markup-account_cards [] (card ∷ cards') h = absurd (ground (arith, h))
markup-account_cards (card ∷ cards) [] h = absurd (ground (arith, h))
markup-account_cards ((on, email) ∷ cards) ((on', email') ∷ cards') h =
    let same : on ≡ on' = ground (arith, h) in
    let rest : flags cards ≡ flags cards' = ground (arith, h) in
    markup-append (account_card on email) (account_cards cards)
    ∙ rw (same, markup-account_card on' email email', markup-account_cards cards cards' rest)
        (sym (markup-append (account_card on' email') (account_cards cards')))

flags-cards_of :
    (accounts : Map GoogleToken) (order : List Str)
    → flags (cards_of accounts order) ≡ map (has_account accounts) order
unfolding cards_of
flags-cards_of accounts [] = refl
flags-cards_of accounts (email ∷ order) =
    ap (λ u. has_account accounts email ∷ u) (flags-cards_of accounts order)

markup-email_span : (s t : Str) → markup (email_span s) ≡ markup (email_span t)
unfolding email_span
markup-email_span s t = simp (markup-append, markup-escape_html) refl

-- two parts of a text, with what stands around them
framed :
    (head a rest s s' cards cards' : Str)
    → markup s ≡ markup s'
    → markup cards ≡ markup cards'
    → markup (head ++ (s ++ (a ++ (cards ++ rest))))
      ≡ markup (head ++ (s' ++ (a ++ (cards' ++ rest))))
framed head a rest s s' cards cards' h k = simp (markup-append, h, k) refl

-- The markup of the dashboard depends on the configuration and on which of the accounts listed are
-- connected, and on nothing in the emails: whatever bytes the emails of the session and of the accounts
-- have, they end no tag and no attribute, and begin none.
pub dashboard_page-markup :
    (accounts accounts' : Map GoogleToken) (order order' : List Str) (app_cfg : Option Config)
    (session_email session_email' : Str)
    → map (has_account accounts) order ≡ map (has_account accounts') order'
    → markup (dashboard_page accounts order app_cfg session_email)
      ≡ markup (dashboard_page accounts' order' app_cfg session_email')
unfolding dashboard_page
dashboard_page-markup accounts accounts' order order' app_cfg session_email session_email' h =
    framed dashboard_head accounts_head (dashboard_rest app_cfg) (email_span session_email)
      (email_span session_email') (account_cards (cards_of accounts order))
      (account_cards (cards_of accounts' order')) (markup-email_span session_email session_email')
      (markup-account_cards (cards_of accounts order) (cards_of accounts' order')
        (flags-cards_of accounts order ∙ h ∙ sym (flags-cards_of accounts' order')))
