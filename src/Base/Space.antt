-- ===== src/Base/Space.antt =====
-- `strings.TrimSpace` on UTF-8: the white space of package `unicode`, by its bytes.
use mathlib.Core.List.{reverse}
use openclaw_relay.Base.Tests.{leb, nat_eq, if◌then◌else◌}
use Prim.Native.Nat.{ℕ}
use mathlib.Core.Bool.{Bool, ◌&&◌, ◌||◌}
use mathlib.Core.List.{[], ◌∷◌}
use openclaw_relay.Base.Str.{Str}

-- tab, newline, vertical tab, form feed, carriage return, space
abbrev pub is_space1 : ℕ → Bool
is_space1 c = nat_eq c 32 || (leb 9 c && leb c 13)

-- U+0085 and U+00A0
abbrev pub is_space2 : ℕ → ℕ → Bool
is_space2 c d = nat_eq c 0xC2 && (nat_eq d 0x85 || nat_eq d 0xA0)

-- U+1680, U+2000 to U+200A, U+2028, U+2029, U+202F, U+205F, U+3000
abbrev pub is_space3 : ℕ → ℕ → ℕ → Bool
is_space3 c d e =
    (nat_eq c 0xE1 && nat_eq d 0x9A && nat_eq e 0x80)
    || (nat_eq c 0xE2
        && nat_eq d 0x80
        && ((leb 0x80 e && leb e 0x8A) || nat_eq e 0xA8 || nat_eq e 0xA9 || nat_eq e 0xAF))
    || (nat_eq c 0xE2 && nat_eq d 0x81 && nat_eq e 0x9F)
    || (nat_eq c 0xE3 && nat_eq d 0x80 && nat_eq e 0x80)

-- Space is cut from the front, where the tests tell a space of two and of three bytes.
module _ (two : ℕ → ℕ → Bool) (three : ℕ → ℕ → ℕ → Bool) where
  unfoldable pub trim_front : Str → Str
  trim_front [] = []
  trim_front (c ∷ []) = if is_space1 c then [] else c ∷ []
  trim_front (c ∷ d ∷ []) =
      let rest = trim_front (d ∷ []) in
      if is_space1 c then rest else if two c d then [] else c ∷ d ∷ []
  trim_front (c ∷ d ∷ e ∷ s) =
      let rest1 = trim_front (d ∷ e ∷ s) in
      let rest2 = trim_front (e ∷ s) in
      let rest3 = trim_front s in
      if is_space1 c
      then rest1
      else if two c d
      then rest2
      else if three c d e
      then rest3
      else c ∷ d ∷ e ∷ s

unfoldable pub trim_left : Str → Str
unfolding trim_front
trim_left = trim_front is_space2 is_space3

-- From the back the bytes of a space come in reverse.
unfoldable pub trim_right : Str → Str
unfolding trim_front
trim_right s = reverse (trim_front (λ d c. is_space2 c d) (λ e d c. is_space3 c d e) (reverse s))

unfoldable pub trim_space : Str → Str
unfolding trim_left trim_right
trim_space s = trim_right (trim_left s)
