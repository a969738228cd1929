-- ===== src/Encoding/RoundTrip.antt =====
-- Hex is read back.
use openclaw_relay.Base.{ℕ, ◌<◌, ◌/◌, ◌%◌, ◌≡◌, refl, some, [], ◌∷◌, arith, All, ap}
use openclaw_relay.Base.Str.{Str, codes, Lacks}
use openclaw_relay.Encoding.{hex_digit, hex_value, hex_encode, hex_decode, base64_encode}

abbrev pub IsBytes : Str → Type 0
IsBytes = All (λ c. c < 256)

pub hex_value-hex_digit : (n : ℕ) → n < 16 → hex_value (hex_digit n) ≡ some n
hex_value-hex_digit n h = ground arith

pub hex_decode-hex_encode : (s : Str) → IsBytes s → hex_decode (hex_encode s) ≡ some s
unfolding hex_decode hex_encode
hex_decode-hex_encode [] h = refl
hex_decode-hex_encode (c ∷ s) h =
    let hi = hex_value-hex_digit (c / 16) (omega (arith, h.0)) in
    let lo = hex_value-hex_digit (c % 16) (omega arith) in
    rw (hi, lo, hex_decode-hex_encode s h.1) (ap (λ d. some (d ∷ s)) (omega arith))

-- the digits of hex hold no dot
pub Lacks-hex_encode : (s : Str) → IsBytes s → Lacks b'.' (hex_encode s)
unfolding hex_encode
Lacks-hex_encode [] h = tt
Lacks-hex_encode (c ∷ s) h =
    (λ e. ground (arith, h.0), (λ e. ground (arith, h.0), Lacks-hex_encode s h.1))

base64_test : base64_encode (codes "light work") ≡ codes "bGlnaHQgd29yaw=="
unfolding base64_encode codes
base64_test = refl

hex_test : hex_encode (codes "\nZ") ≡ codes "0a5a"
unfolding hex_encode codes
hex_test = refl
