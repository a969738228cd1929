-- ===== src/Base/Cut.antt =====
-- A text is cut in one way only at a byte that one of its parts lacks.
use Prim.Native.Nat.{ℕ}
use mathlib.Core.Path.{◌≡◌, refl}
use mathlib.Core.List.{[], ◌∷◌, ◌++◌}
use native.Mathlib.Omega.{arith}
use openclaw_relay.Base.Str.{Str, Lacks}

not-Lacks-append : (b : ℕ) (s t : Str) → Lacks b (s ++ b ∷ t) → ⊥
not-Lacks-append b [] t h = h.0 refl
not-Lacks-append b (c ∷ s) t h = not-Lacks-append b s t h.1

-- at the first `b`
pub cut_first_unique :
    (b : ℕ) (s s' t t' : Str)
    → Lacks b s
    → Lacks b s'
    → s ++ b ∷ t ≡ s' ++ b ∷ t'
    → (s ≡ s') × (t ≡ t')
cut_first_unique b [] [] t t' h h' e = ground (arith, e)
cut_first_unique b [] (c ∷ s') t t' h h' e = absurd (ground (arith, e, h'.0))
cut_first_unique b (c ∷ s) [] t t' h h' e = absurd (ground (arith, e, h.0))
cut_first_unique b (c ∷ s) (d ∷ s') t t' h h' e =
    ground (arith, e, cut_first_unique b s s' t t' h.1 h'.1)

-- at the last `b`
pub cut_last_unique :
    (b : ℕ) (s s' t t' : Str)
    → Lacks b t
    → Lacks b t'
    → s ++ b ∷ t ≡ s' ++ b ∷ t'
    → (s ≡ s') × (t ≡ t')
cut_last_unique b [] [] t t' h h' e = ground (arith, e)
cut_last_unique b [] (c ∷ s') t t' h h' e = absurd (not-Lacks-append b s' t' (rw (tail_eq e) at h))
  where
    tail_eq : b ∷ t ≡ c ∷ (s' ++ b ∷ t') → t ≡ s' ++ b ∷ t'
    tail_eq p = cc
cut_last_unique b (c ∷ s) [] t t' h h' e = absurd (not-Lacks-append b s t (rw (tail_eq e) at h'))
  where
    tail_eq : c ∷ (s ++ b ∷ t) ≡ b ∷ t' → t' ≡ s ++ b ∷ t
    tail_eq p = cc
cut_last_unique b (c ∷ s) (d ∷ s') t t' h h' e = ground (arith, e, cut_last_unique b s s' t t' h h')
