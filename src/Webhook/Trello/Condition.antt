-- ===== src/Webhook/Trello/Condition.antt =====
-- The conditions of Trello rules: "list == 'a' || list == 'b'" holds of the lists that it names.
use mathlib.Core.Path.{ap₂}
use mathlib.Core.List.{reverse, reverse-append, reverse-cons, reverse-reverse}
use openclaw_relay.Base.{
  All-append, ℕ, ◌+◌, ◌≡◌, ◌≢◌, refl, sym, ap, ◌∙◌, Bool, true, false, ◌||◌, some, List, [], ◌∷◌,
  ◌++◌, any, length, take, arith, append_assoc, append-nil, All,
}
use openclaw_relay.Base.Str.{eq_of_ne, Str, ◌==◌, codes, contains, Lacks}
use openclaw_relay.Base.Space.{trim_front, trim_left, trim_right, trim_space, is_space2, is_space3}
use openclaw_relay.Base.Index.{
  index_byte, last_index_byte, slice, last_index_byte-append, take-length-append,
}
use openclaw_relay.Config.{is_member}
use openclaw_relay.Webhook.Trello.{split_bars, quoted, between, part_matches, match_condition}

-- One comparison, and the condition that names the lists given.
abbrev pub quote : Str
quote = b'\'' ∷ []

unfoldable pub clause : Str → Str
clause name = codes "list == '" ++ (name ++ quote)

unfoldable pub condition_for : List Str → Str
condition_for [] = []
condition_for (name ∷ []) = clause name
condition_for (name ∷ other ∷ names) =
    clause name ++ (codes " || " ++ condition_for (other ∷ names))

abbrev back2 : ℕ → ℕ → Bool
back2 d c = is_space2 c d

abbrev back3 : ℕ → ℕ → ℕ → Bool
back3 e d c = is_space3 c d e

trim_front-quote : (s : Str) → trim_front back2 back3 (b'\'' ∷ s) ≡ b'\'' ∷ s
unfolding trim_front
trim_front-quote [] = refl
trim_front-quote (d ∷ []) = ground arith
trim_front-quote (d ∷ e ∷ s) = ground arith

trim_front-space : (s : Str) → trim_front back2 back3 (32 ∷ b'\'' ∷ s) ≡ b'\'' ∷ s
unfolding trim_front
trim_front-space [] = refl
trim_front-space (e ∷ s) = trim_front-quote (e ∷ s)

reverse-quote : (s : Str) → reverse (s ++ quote) ≡ b'\'' ∷ reverse s
reverse-quote s = reverse-append s quote

reverse-quote_space : (s : Str) → reverse (s ++ (quote ++ 32 ∷ [])) ≡ 32 ∷ b'\'' ∷ reverse s
reverse-quote_space s = reverse-append s (quote ++ 32 ∷ [])

reverse_back : (s : Str) → reverse (b'\'' ∷ reverse s) ≡ s ++ quote
reverse_back s = reverse-cons b'\'' (reverse s) ∙ ap (λ u. u ++ quote) (reverse-reverse s)

trim_right-quote : (s : Str) → trim_right (s ++ quote) ≡ s ++ quote
unfolding trim_right
trim_right-quote s =
    ap (λ u. reverse (trim_front back2 back3 u)) (reverse-quote s)
    ∙ ap reverse (trim_front-quote (reverse s))
    ∙ reverse_back s

trim_right-space : (s : Str) → trim_right (s ++ (quote ++ 32 ∷ [])) ≡ s ++ quote
unfolding trim_right
trim_right-space s =
    ap (λ u. reverse (trim_front back2 back3 u)) (reverse-quote_space s)
    ∙ ap reverse (trim_front-space (reverse s))
    ∙ reverse_back s

-- the space that stands before or behind a comparison
abbrev space : Bool → Str
space true = 32 ∷ []
space false = []

head : Str
head = codes "list == '"

trim_left-clause : (b : Bool) (s : Str) → trim_left (space b ++ (head ++ s)) ≡ head ++ s
unfolding trim_left head codes
trim_left-clause true s = refl
trim_left-clause false s = refl

trim_right-clause : (b : Bool) (s : Str) → trim_right (s ++ (quote ++ space b)) ≡ s ++ quote
trim_right-clause true s = trim_right-space s
trim_right-clause false s = trim_right-quote s

-- a comparison with the space around it
abbrev part : Bool → Str → Bool → Str
part a name b = space a ++ (clause name ++ space b)

clause_assoc : (name rest : Str) → clause name ++ rest ≡ head ++ (name ++ (quote ++ rest))
unfolding clause head
clause_assoc name rest = simp append_assoc

clause-append : (name : Str) → clause name ≡ (head ++ name) ++ quote
unfolding clause head
clause-append name = sym (append_assoc (codes "list == '") name quote)

trim_space-part : (a b : Bool) (name : Str) → trim_space (part a name b) ≡ clause name
unfolding trim_space
trim_space-part a b name =
    ap (λ u. trim_right (trim_left (space a ++ u))) (clause_assoc name (space b))
    ∙ ap trim_right (trim_left-clause a (name ++ (quote ++ space b)))
    ∙ ap trim_right (sym (append_assoc head name (quote ++ space b)))
    ∙ trim_right-clause b (head ++ name)
    ∙ sym (clause-append name)

contains-clause : (name : Str) → contains (clause name) (codes "list ==") ≡ true
unfolding contains clause codes
contains-clause name = refl

length-head : (s : Str) → length (head ++ s) ≡ length s + 9
unfolding head codes
length-head s = omega arith

first_quote : (name : Str) → index_byte b'\'' (clause name) ≡ some 8
unfolding index_byte clause codes
first_quote name = refl

last_quote : (name : Str) → last_index_byte b'\'' (clause name) ≡ some (length (head ++ name))
last_quote name =
    ap (last_index_byte b'\'') (clause-append name) ∙ last_index_byte-append b'\'' (head ++ name)

slice-clause : (name : Str) → slice (clause name) 9 (length (head ++ name)) ≡ name
unfolding clause codes
slice-clause name =
    ap (λ n. take n (name ++ quote)) (omega (arith, length-head name))
    ∙ take-length-append name quote

quoted-clause : (name : Str) → quoted (clause name) ≡ some name
unfolding quoted
quoted-clause name =
    ap₂ (between (clause name)) (first_quote name) (last_quote name)
    ∙ ground (arith, length-head name, slice-clause name)

part_matches-part :
    (l : Str) (a b : Bool) (name : Str) → part_matches l (part a name b) ≡ (name == l)
unfolding part_matches
part_matches-part l a b name =
    rw (trim_space-part a b name, contains-clause name, quoted-clause name)

split_bars_none : (cur s : Str) → Lacks b'|' s → split_bars cur s ≡ (cur ++ s) ∷ []
unfolding split_bars
split_bars_none cur [] h = rw append-nil
split_bars_none cur (c ∷ []) h = refl
split_bars_none cur (c ∷ d ∷ s) h =
    ground
      (arith, h.0, split_bars_none (cur ++ c ∷ []) (d ∷ s) h.1, append_assoc cur (c ∷ []) (d ∷ s))

abbrev bars : Str
bars = b'|' ∷ b'|' ∷ []

split_bars_at :
    (cur s rest : Str)
    → Lacks b'|' s
    → split_bars cur (s ++ (bars ++ rest)) ≡ (cur ++ s) ∷ split_bars [] rest
unfolding split_bars
split_bars_at cur [] rest h = rw append-nil
split_bars_at cur (c ∷ []) rest h =
    ground (arith, h.0, append-nil (cur ++ c ∷ []), split_bars_at (cur ++ c ∷ []) [] rest tt)
split_bars_at cur (c ∷ d ∷ s) rest h =
    ground (
      arith,
      h.0,
      split_bars_at (cur ++ c ∷ []) (d ∷ s) rest h.1,
      append_assoc cur (c ∷ []) (d ∷ s),
    )

Lacks-space : (b : Bool) → Lacks b'|' (space b)
Lacks-space true = omega arith
Lacks-space false = tt

Lacks-clause : (name : Str) → Lacks b'|' name → Lacks b'|' (clause name)
unfolding clause codes
Lacks-clause name h =
    All-append (λ c. c ≢ b'|') (codes "list == '") (name ++ quote) (omega arith)
      (All-append (λ c. c ≢ b'|') name quote h (omega arith))

Lacks-part : (a b : Bool) (name : Str) → Lacks b'|' name → Lacks b'|' (part a name b)
Lacks-part a b name h =
    All-append (λ c. c ≢ b'|') (space a) (clause name ++ space b) (Lacks-space a)
      (All-append (λ c. c ≢ b'|') (clause name) (space b) (Lacks-clause name h) (Lacks-space b))

module _ (l : Str) where
  any-last :
      (a : Bool) (name : Str)
      → Lacks b'|' name
      → any (part_matches l) (split_bars [] (part a name false)) ≡ ((name == l) || false)
  any-last a name h =
      ap (any (part_matches l)) (split_bars_none [] (part a name false) (Lacks-part a false name h))
      ∙ ap (λ t. t || false) (part_matches-part l a false name)

  any-more :
      (a : Bool) (name rest : Str)
      → Lacks b'|' name
      → any (part_matches l) (split_bars [] (part a name true ++ (bars ++ rest)))
        ≡ ((name == l) || any (part_matches l) (split_bars [] rest))
  any-more a name rest h =
      ap (any (part_matches l))
        (split_bars_at [] (part a name true) rest (Lacks-part a true name h))
      ∙ ap (λ t. t || any (part_matches l) (split_bars [] rest)) (part_matches-part l a true name)

  next_part :
      (a : Bool) (name rest : Str)
      → space a ++ (clause name ++ (codes " || " ++ rest))
        ≡ part a name true ++ (bars ++ (space true ++ rest))
  unfolding codes
  next_part a name rest = simp append_assoc

  -- the parts of a condition, the first behind a space or not
  any-condition_for :
      (a : Bool) (name : Str) (names : List Str)
      → All (Lacks b'|') (name ∷ names)
      → any (part_matches l) (split_bars [] (space a ++ condition_for (name ∷ names)))
        ≡ is_member l (name ∷ names)
  unfolding condition_for is_member
  any-condition_for a name [] h =
      ap (λ t. any (part_matches l) (split_bars [] (space a ++ t))) (sym (append-nil (clause name)))
      ∙ any-last a name h.0
  any-condition_for a name (other ∷ names) h =
      ap (λ t. any (part_matches l) (split_bars [] t))
        (next_part a name (condition_for (other ∷ names)))
      ∙ any-more a name (space true ++ condition_for (other ∷ names)) h.0
      ∙ ap (λ t. (name == l) || t) (any-condition_for true other names h.1)

condition_for-ne-nil : (name : Str) (names : List Str) → condition_for (name ∷ names) ≢ []
unfolding condition_for clause codes
condition_for-ne-nil name [] = cc
condition_for-ne-nil name (other ∷ names) = cc

-- The condition "list == 'a' || list == 'b' || …" holds of a list exactly if it is one of those that
-- the condition names, for any names without the byte `|`, and one name at least.
pub match_condition-condition_for :
    (l name : Str) (names : List Str)
    → All (Lacks b'|') (name ∷ names)
    → match_condition (condition_for (name ∷ names)) l ≡ is_member l (name ∷ names)
unfolding match_condition
match_condition-condition_for l name names h =
    rw (eq_of_ne _ [] (condition_for-ne-nil name names)) (any-condition_for l false name names h)
