-- ===== src/Base/Decimal.antt =====
-- Integers in decimal, as `fmt` prints them with `%d`.
use Prim.Native.Nat.{ℕ, zero, suc, ◌+◌, ◌-◌, ◌*◌, ◌/◌, ◌%◌, ◌<◌, ◌≤◌}
use mathlib.Core.Path.{◌≡◌, refl, sym, ◌∙◌, ap}
use mathlib.Core.List.{[], ◌∷◌, ◌++◌}
use native.Mathlib.Omega.{arith}
use openclaw_relay.Base.Tests.{ltb, nat_eq, if◌then◌else◌}
use openclaw_relay.Base.Lists.{All, All-append}
use openclaw_relay.Base.Str.{Str}
use openclaw_relay.Base.Int.{ℤ, pos, negsuc}

-- the digits of `n`, for a fuel above `n`
unfoldable pub digits : ℕ → ℕ → Str
digits zero n = []
digits (suc fuel) n =
    let more = digits fuel (n / 10) ++ (b'0' + n % 10) ∷ [] in
    if ltb n 10 then (b'0' + n) ∷ [] else more

unfoldable pub format : ℕ → Str
unfolding digits
format n = digits (suc n) n

unfoldable pub itoa : ℤ → Str
unfolding format
itoa (pos n) = format n
itoa (negsuc n) = b'-' ∷ format (n + 1)

-- the number that digits spell behind `acc`
unfoldable pub value : ℕ → Str → ℕ
value acc [] = acc
value acc (c ∷ s) = value (acc * 10 + (c - b'0')) s

value-append : (acc : ℕ) (s t : Str) → value acc (s ++ t) ≡ value (value acc s) t
unfolding value
value-append acc [] t = refl
value-append acc (c ∷ s) t = value-append (acc * 10 + (c - b'0')) s t

pub value-digits : (fuel n : ℕ) → n < fuel → value 0 (digits fuel n) ≡ n
unfolding digits
value-digits zero n h = absurd (omega arith)
value-digits (suc fuel) n h = ground (
  arith,
  value_one (b'0' + n),
  value-append 0 (digits fuel (n / 10)) ((b'0' + n % 10) ∷ []),
  value_one_behind n (value 0 (digits fuel (n / 10))),
  value-digits fuel (n / 10),
)
  where
    value_one : (c : ℕ) → value 0 (c ∷ []) ≡ c - b'0'
    value_one c = unfold value in omega arith

    value_one_behind : (n acc : ℕ) → value acc ((b'0' + n % 10) ∷ []) ≡ acc * 10 + n % 10
    value_one_behind n acc = unfold value in omega arith

abbrev pub AreDigits : Str → Type 0
AreDigits = All (λ c. (b'0' ≤ c) × (c ≤ b'9'))

pub digits-AreDigits : (fuel n : ℕ) → AreDigits (digits fuel n)
unfolding digits
digits-AreDigits zero n = tt
digits-AreDigits (suc fuel) n = ground (
  arith,
  All-append (λ c. (b'0' ≤ c) × (c ≤ b'9')) (digits fuel (n / 10)) ((b'0' + n % 10) ∷ [])
      (digits-AreDigits fuel (n / 10)) ((omega arith, omega arith), tt),
)

-- the integer that a text spells
read : Str → ℤ
read [] = pos 0
read (c ∷ s) = if nat_eq c b'-' then negsuc (value 0 s - 1) else pos (value 0 (c ∷ s))

read-digits : (s : Str) → AreDigits s → read s ≡ pos (value 0 s)
unfolding read value
read-digits [] h = refl
read-digits (c ∷ s) h = ground (arith, h.0)

read-itoa : (n : ℤ) → read (itoa n) ≡ n
unfolding itoa
read-itoa (pos n) =
    read-digits (format n) (unfold format in digits-AreDigits (suc n) n)
    ∙ ap pos (unfold format in value-digits (suc n) n (omega arith))
read-itoa (negsuc n) =
    unfold read format in ap negsuc (omega (arith, value-digits (suc (n + 1)) (n + 1)))

-- Different integers are printed differently.
pub itoa-injective : (m n : ℤ) → itoa m ≡ itoa n → m ≡ n
itoa-injective m n e = sym (read-itoa m) ∙ ap read e ∙ read-itoa n
