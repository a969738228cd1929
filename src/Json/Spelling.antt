-- ===== src/Json/Spelling.antt =====
-- What the single characters that encoding/json writes, for internal/audit/audit.go, are read as.
use openclaw_relay.Base.{
  ℕ, ◌+◌, ◌<◌, ◌*◌, ◌/◌, ◌%◌, ◌≡◌, ◌≢◌, refl, sym, ap, ◌∙◌, Bool, true, false, ◌||◌, Option, none,
  some, [], ◌∷◌, ◌++◌, arith, ltb, nat_eq, if◌then◌else◌, nat_eq_iff, append_assoc,
}
use openclaw_relay.Base.Str.{Str, codes}
use openclaw_relay.Encoding.{hex_digit}
use openclaw_relay.Encoding.RoundTrip.{hex_value-hex_digit}
use openclaw_relay.Json.{escape_byte}
use openclaw_relay.Json.Reader.{
  utf8, letter, between, hex, read_hex, read_byte, prepend, read_string,
}

-- A text that is read as the bytes `s`, between characters.
abbrev pub Spells : Str → Str → Type 0
Spells text s = (t : Str) → read_string between (text ++ t) ≡ prepend s (read_string between t)

pub plain-Spells : (c : ℕ) → c ≢ b'"' → c ≢ b'\\' → Spells (c ∷ []) (c ∷ [])
unfolding read_string read_byte
plain-Spells c not_end not_escape t = ground arith

letter-Spells : (k c : ℕ) → k ≢ b'u' → letter k ≡ c → Spells (b'\\' ∷ k ∷ []) (c ∷ [])
unfolding read_string read_byte
letter-Spells k c other same t = ground arith

hex_step :
    (left v n : ℕ) (t : Str)
    → n < 16
    → read_string (hex left v) (hex_digit n ∷ t)
      ≡ prepend (read_hex left (v * 16 + n)).0 (read_string (read_hex left (v * 16 + n)).1 t)
unfolding read_string read_byte
hex_step left v n t small = rw (hex_value-hex_digit n small) refl

pub prepend-nil : (r : Option (Str × Str)) → prepend [] r ≡ r
prepend-nil none = refl
prepend-nil (some (s, rest)) = refl

abbrev four_digits : (a b c d : ℕ) → ℕ
four_digits a b c d = (((0 * 16 + a) * 16 + b) * 16 + c) * 16 + d

-- four hex digits behind `\u`
pub code-Spells :
    (a b c d : ℕ)
    → a < 16
    → b < 16
    → c < 16
    → d < 16
    → Spells
        (b'\\' ∷ b'u' ∷ hex_digit a ∷ hex_digit b ∷ hex_digit c ∷ hex_digit d ∷ [])
        (utf8 (four_digits a b c d))
unfolding read_string read_byte read_hex
code-Spells a b c d small_a small_b small_c small_d t =
    rw
      (
        hex_step 3 0 a (hex_digit b ∷ hex_digit c ∷ hex_digit d ∷ t) small_a,
        hex_step 2 (0 * 16 + a) b (hex_digit c ∷ hex_digit d ∷ t) small_b,
        hex_step 1 ((0 * 16 + a) * 16 + b) c (hex_digit d ∷ t) small_c,
        hex_step 0 (((0 * 16 + a) * 16 + b) * 16 + c) d t small_d,
      )
      (simp (prepend-nil) refl)

utf8_ascii : (c : ℕ) → c < 128 → utf8 c ≡ c ∷ []
unfolding utf8
utf8_ascii c ascii = ground arith

byte-Spells :
    (c : ℕ)
    → c < 128
    → Spells (codes "\\u00" ++ hex_digit (c / 16) ∷ hex_digit (c % 16) ∷ []) (c ∷ [])
unfolding codes
byte-Spells c ascii t =
    code-Spells 0 0 (c / 16) (c % 16) (omega arith) (omega arith) (omega arith) (omega arith) t
    ∙ ap (λ out. prepend out (read_string between t))
        (ap utf8 (omega (arith, ascii)) ∙ utf8_ascii c ascii)

Spells-if :
    (test : Bool) (a b s : Str)
    → (test ≡ true → Spells a s)
    → (test ≡ false → Spells b s)
    → Spells (if test then a else b) s
Spells-if true a b s yes_ no_ = yes_ refl
Spells-if false a b s yes_ no_ = no_ refl

-- an escape by a letter, for the one byte that it stands for
Spells-letter :
    (k byte c : ℕ) (other : Str)
    → k ≢ b'u'
    → letter k ≡ byte
    → (c ≢ byte → Spells other (c ∷ []))
    → Spells (if nat_eq c byte then b'\\' ∷ k ∷ [] else other) (c ∷ [])
Spells-letter k byte c other plain same more =
    Spells-if (nat_eq c byte) (b'\\' ∷ k ∷ []) other (c ∷ [])
      (λ h. letter-Spells k c plain (same ∙ sym ((nat_eq_iff c byte).0 h)))
      (λ h. more (λ e. ground arith))

pub escape_byte-Spells : (c : ℕ) → c < 128 → Spells (escape_byte c) (c ∷ [])
unfolding escape_byte codes letter
escape_byte-Spells c ascii =
    Spells-if (nat_eq c b'\\' || nat_eq c b'"') _ _ (c ∷ [])
      (λ h. letter-Spells c c (ground arith) (ground arith))
      (λ plain. Spells-letter b'b' 8 c _ (omega arith) refl (λ _.
        Spells-letter b'f' 12 c _ (omega arith) refl (λ _.
          Spells-letter b'n' 10 c _ (omega arith) refl (λ _.
            Spells-letter b'r' 13 c _ (omega arith) refl (λ _.
              Spells-letter b't' 9 c _ (omega arith) refl (λ _.
                Spells-if (ltb c 32 || nat_eq c b'<' || nat_eq c b'>' || nat_eq c b'&') _ _ (c ∷ [])
                  (λ _. byte-Spells c ascii)
                  (λ _. plain-Spells c (ground arith) (ground arith))))))))

prepend-append : (a b : Str) (r : Option (Str × Str)) → prepend a (prepend b r) ≡ prepend (a ++ b) r
prepend-append a b none = refl
prepend-append a b (some (s, rest)) = ap (λ t. some (t, rest)) (sym (append_assoc a b s))

pub append-Spells : (a b s u : Str) → Spells a s → Spells b u → Spells (a ++ b) (s ++ u)
append-Spells a b s u first second t =
    ap (read_string between) (append_assoc a b t)
    ∙ first (b ++ t)
    ∙ ap (prepend s) (second t)
    ∙ prepend-append s u (read_string between t)
