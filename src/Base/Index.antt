-- ===== src/Base/Index.antt =====
-- `strings.Index` and `strings.LastIndex` of one byte, and slices.
use Prim.Native.Nat.{ℕ, suc, ◌-◌}
use mathlib.Core.Path.{◌≡◌, refl}
use mathlib.Core.Option
use mathlib.Core.Option.{Option, none, some}
use mathlib.Core.List.{[], ◌∷◌, ◌++◌}
use native.Mathlib.Omega.{arith}
use openclaw_relay.Base.Tests.{nat_eq, if◌then◌else◌}
use openclaw_relay.Base.Lists.{take, drop, length}
use openclaw_relay.Base.Str.{Str}

unfoldable pub index_byte : ℕ → Str → Option ℕ
index_byte b [] = none
index_byte b (c ∷ s) = if nat_eq c b then some 0 else Option.map suc (index_byte b s)

unfoldable pub last_index_byte : ℕ → Str → Option ℕ
last_index_byte b [] = none
last_index_byte b (c ∷ s) = elim (last_index_byte b s) [
  | some i ↦ some (suc i)
  | none ↦ if nat_eq c b then some 0 else none
]

-- `s[i:j]`, for `i ≤ j`
abbrev pub slice : Str → ℕ → ℕ → Str
slice s i j = take (j - i) (drop i s)

pub last_index_byte-append : (b : ℕ) (s : Str) → last_index_byte b (s ++ b ∷ []) ≡ some (length s)
unfolding last_index_byte
last_index_byte-append b [] = ground arith
last_index_byte-append b (c ∷ s) = ground (arith, last_index_byte-append b s)

pub take-length-append : (s t : Str) → take (length s) (s ++ t) ≡ s
take-length-append [] t = refl
take-length-append (c ∷ s) t = ground (arith, take-length-append s t)
