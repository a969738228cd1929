-- ===== src/Json.antt =====
-- The strings and numbers that encoding/json writes for `json.Marshal` (Go 1.24), as
-- internal/audit/audit.go uses it.
pub mod Quiet
pub mod Reader
pub mod Spelling
pub mod RoundTrip
use openclaw_relay.Base.{
  not, ◌||◌, ℕ, zero, suc, ◌/◌, ◌%◌, Bool, true, false, ◌&&◌, Option, none, some, [], ◌∷◌, ◌++◌,
  leb, ltb, nat_eq, if◌then◌else◌,
}
use openclaw_relay.Base.Str.{Str, codes}
use openclaw_relay.Encoding.{hex_digit}

-- An ASCII byte in a string, with the HTML characters escaped.
unfoldable pub escape_byte : ℕ → Str
escape_byte c =
    if nat_eq c b'\\' || nat_eq c b'"'
    then b'\\' ∷ c ∷ []
    else if nat_eq c 8
    then codes "\\b"
    else if nat_eq c 12
    then codes "\\f"
    else if nat_eq c 10
    then codes "\\n"
    else if nat_eq c 13
    then codes "\\r"
    else if nat_eq c 9
    then codes "\\t"
    else if ltb c 32 || nat_eq c b'<' || nat_eq c b'>' || nat_eq c b'&'
    then codes "\\u00" ++ hex_digit (c / 16) ∷ hex_digit (c % 16) ∷ []
    else c ∷ []

-- `n` bytes that continue a character in UTF-8, the first of them from `low` to `high`
unfoldable pub continues : ℕ → ℕ → ℕ → Str → Bool
continues zero low high s = true
continues (suc n) low high [] = false
continues (suc n) low high (c ∷ s) = leb low c && leb c high && continues n 128 191 s

-- How many bytes continue the character that begins with `c`; `none` if it is not UTF-8.
unfoldable pub rune_tail : ℕ → Str → Option ℕ
unfolding continues
rune_tail c s =
    if leb 194 c && leb c 223 && continues 1 128 191 s
    then some 1
    else if nat_eq c 224 && continues 2 160 191 s
    then some 2
    else if leb 225 c && leb c 239 && not (nat_eq c 237) && continues 2 128 191 s
    then some 2
    else if nat_eq c 237 && continues 2 128 159 s
    then some 2
    else if nat_eq c 240 && continues 3 144 191 s
    then some 3
    else if leb 241 c && leb c 243 && continues 3 128 191 s
    then some 3
    else if nat_eq c 244 && continues 3 128 143 s
    then some 3
    else none

-- U+2028 and U+2029, whose last hex digit it gives
unfoldable pub separator : ℕ → Str → Option ℕ
separator c (d ∷ e ∷ s) =
    if nat_eq c 226 && nat_eq d 128 && (nat_eq e 168 || nat_eq e 169)
    then some (hex_digit (e % 16))
    else none
separator c _ = none

-- The string is at the start of a character, or its next bytes are copied or left out, `n` of them.
pub data Mode : Type 0 where
  start : Mode
  copy leave_out : ℕ → Mode

abbrev pub copying : ℕ → Mode
copying zero = start
copying (suc n) = copy n

-- The character that begins with `c`: what is written at `c`, and what is done with the bytes behind it.
unfoldable pub begin : ℕ → Str → Str × Mode
unfolding escape_byte rune_tail separator
begin c s = if ltb c 128 then (escape_byte c, start) else elim (rune_tail c s) [
  | none ↦ (codes "\\ufffd", start)
  | some n ↦ elim (separator c s) [
    | some d ↦ (codes "\\u202" ++ d ∷ [], leave_out 1)
    | none ↦ (c ∷ [], copying n)
  ]
]

unfoldable pub step : Mode → ℕ → Str → Str × Mode
unfolding begin
step start c s = begin c s
step (copy n) c s = (c ∷ [], copying n)
step (leave_out zero) c s = ([], start)
step (leave_out (suc n)) c s = ([], leave_out n)

-- A string between its quotes.
unfoldable pub escape : Mode → Str → Str
unfolding step
escape m [] = []
escape m (c ∷ s) = (step m c s).0 ++ escape (step m c s).1 s

unfoldable pub quote : Str → Str
unfolding escape
quote s = b'"' ∷ escape start s ++ b'"' ∷ []
