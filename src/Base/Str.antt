-- ===== src/Base/Str.antt =====
-- Go strings as lists of bytes, and the functions of package `strings` that the code calls.
use Prim.Native.Char.{code}
use Prim.Native.String.{String}
use Prim.Native.Nat.{ℕ}
use mathlib.Core.Path.{subst, sym, ap, ◌∙◌, ◌≡◌, refl}
use mathlib.Core.Logic.{◌↔◌, ◌≢◌, ◌⊎◌}
use mathlib.Core.Bool.{Bool, true, false, ◌&&◌, ◌||◌}
use mathlib.Core.Option.{Option, none, some}
use mathlib.Core.List.{List, [], ◌∷◌, ◌++◌}
use native.Mathlib.Omega.{arith}
use openclaw_relay.Base.Tests.{nat_eq, if◌then◌else◌}
use openclaw_relay.Base.Lists.{All}

abbrev pub Str : Type 0
Str = List ℕ

-- The bytes of a literal; every literal here is ASCII.
unfoldable pub codes : String → Str
codes String.[] = []
codes (String.◌∷◌ first others) = code first ∷ codes others

infix 50 ◌==◌
unfoldable pub ◌==◌ : Str → Str → Bool
[] == [] = true
[] == (_ ∷ _) = false
(_ ∷ _) == [] = false
(a ∷ s) == (b ∷ t) = nat_eq a b && s == t

pub eq_iff : (s t : Str) → ((s == t) ≡ true) ↔ (s ≡ t)
unfolding ◌==◌
eq_iff [] [] = ground arith
eq_iff [] (b ∷ t) = ground arith
eq_iff (a ∷ s) [] = ground arith
eq_iff (a ∷ s) (b ∷ t) = ground (arith, eq_iff s t)

pub eq_refl : (s : Str) → (s == s) ≡ true
eq_refl s = (eq_iff s s).1 refl

pub eq_sym : (s t : Str) → (s == t) ≡ (t == s)
eq_sym s t = ground (arith, eq_iff s t, eq_iff t s)

pub eq_of_ne : (s t : Str) → s ≢ t → (s == t) ≡ false
eq_of_ne s t h = ground (arith, eq_iff s t)

-- `strings.HasPrefix`
unfoldable pub has_prefix : Str → Str → Bool
has_prefix s [] = true
has_prefix [] (p ∷ ps) = false
has_prefix (c ∷ s) (p ∷ ps) = nat_eq c p && has_prefix s ps

-- the rest of `s` behind the prefix, if it is one
unfoldable pub cut_prefix : Str → Str → Option Str
cut_prefix s [] = some s
cut_prefix [] (p ∷ ps) = none
cut_prefix (c ∷ s) (p ∷ ps) = if nat_eq c p then cut_prefix s ps else none

-- `strings.TrimPrefix`
unfoldable pub trim_prefix : Str → Str → Str
unfolding cut_prefix
trim_prefix s p = elim (cut_prefix s p) [ none ↦ s | some rest ↦ rest ]

-- `strings.Contains`
unfoldable pub contains : Str → Str → Bool
unfolding has_prefix
contains [] p = has_prefix [] p
contains (c ∷ s) p = has_prefix (c ∷ s) p || contains s p

-- no byte of the string is `b`
abbrev pub Lacks : ℕ → Str → Type 0
Lacks b = All (λ c. c ≢ b)

-- `e` is one of the strings
abbrev pub IsListed : Str → List Str → Type 0
IsListed e [] = ⊥
IsListed e (x ∷ xs) = (x ≡ e) ⊎ IsListed e xs

pub has_prefix-append : (p s : Str) → has_prefix (p ++ s) p ≡ true
unfolding has_prefix
has_prefix-append [] [] = refl
has_prefix-append [] (c ∷ s) = refl
has_prefix-append (c ∷ p) s = ground (arith, has_prefix-append p s)

pub cut_prefix-append : (p s : Str) → cut_prefix (p ++ s) p ≡ some s
unfolding cut_prefix
cut_prefix-append [] [] = refl
cut_prefix-append [] (c ∷ s) = refl
cut_prefix-append (c ∷ p) s = ground (arith, cut_prefix-append p s)

pub trim_prefix-append : (p s : Str) → trim_prefix (p ++ s) p ≡ s
unfolding trim_prefix
trim_prefix-append p s = rw (cut_prefix-append p s, trim_prefix)

pub cut_prefix_of_has_prefix :
    (s p : Str)
    → has_prefix s p ≡ true
    → (rest : Str) × (cut_prefix s p ≡ some rest) × (s ≡ p ++ rest)
unfolding has_prefix cut_prefix
cut_prefix_of_has_prefix [] [] h = ([], refl, refl)
cut_prefix_of_has_prefix (c ∷ s) [] h = (c ∷ s, refl, refl)
cut_prefix_of_has_prefix [] (p ∷ ps) h = absurd (ground arith)
cut_prefix_of_has_prefix (c ∷ s) (p ∷ ps) h =
    let (rest, cut, same) = cut_prefix_of_has_prefix s ps (ground arith) in
    (rest, ground (arith, cut), ground (arith, same))

prefixed_self : (t x : Str) → (has_prefix (t ++ x) t && trim_prefix (t ++ x) t == x) ≡ true
prefixed_self t x = rw (has_prefix-append t x, trim_prefix-append t x) (eq_refl x)

-- The test for a prefix and for the rest behind it is a test for the whole.
pub prefixed_iff : (s t x : Str) → ((has_prefix s t && trim_prefix s t == x) ≡ true) ↔ (s ≡ t ++ x)
prefixed_iff s t x = (
  λ h.
      let (rest, cut, same) = cut_prefix_of_has_prefix s t (ground (arith, h)) in
      let trimmed : trim_prefix s t ≡ rest =
        ap (λ u. trim_prefix u t) same ∙ trim_prefix-append t rest in
      ground (arith, h, same, trimmed, eq_iff (trim_prefix s t) x),
  λ e. subst (λ u. (has_prefix u t && trim_prefix u t == x) ≡ true) (sym e) (prefixed_self t x),
)

-- Two texts that the test tells apart.
pub ne_of_test : (s t : Str) → (s == t) ≡ false → s ≢ t
ne_of_test s t h e = ground (arith, eq_iff s t)

pub has_prefix_trans :
    (s p q : Str) → has_prefix s p ≡ true → has_prefix p q ≡ true → has_prefix s q ≡ true
unfolding has_prefix
has_prefix_trans [] [] q h k = k
has_prefix_trans (c ∷ s) [] [] h k = refl
has_prefix_trans (c ∷ s) [] (b ∷ q) h k = absurd (ground (arith, k))
has_prefix_trans [] (a ∷ p) q h k = absurd (ground (arith, h))
has_prefix_trans (c ∷ s) (a ∷ p) [] h k = refl
has_prefix_trans (c ∷ s) (a ∷ p) (b ∷ q) h k = ground (arith, h, k, has_prefix_trans s p q)
