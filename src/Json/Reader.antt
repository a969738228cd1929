-- ===== src/Json/Reader.antt =====
-- A reader of JSON strings and numbers, to state what encoding/json writes; internal/audit/audit.go only
-- writes. It gives what it read and the rest of the text.
use openclaw_relay.Base.{
  ℕ, zero, suc, ◌+◌, ◌-◌, ◌*◌, ◌/◌, ◌%◌, Bool, true, false, ◌&&◌, Option, none, some, [], ◌∷◌, ◌++◌,
  leb, ltb, nat_eq, if◌then◌else◌,
}
use openclaw_relay.Base.Str.{Str}
use openclaw_relay.Encoding.{hex_value}
use openclaw_relay.Json.{rune_tail}

-- A character below U+10000 in UTF-8.
unfoldable pub utf8 : ℕ → Str
utf8 v =
    if ltb v 128
    then v ∷ []
    else if ltb v 2048
    then (192 + v / 64) ∷ (128 + v % 64) ∷ []
    else (224 + v / 4096) ∷ (128 + v / 64 % 64) ∷ (128 + v % 64) ∷ []

-- The byte that a letter behind a backslash stands for.
unfoldable pub letter : ℕ → ℕ
letter c =
    if nat_eq c b'b'
    then 8
    else if nat_eq c b'f'
    then 12
    else if nat_eq c b'n'
    then 10
    else if nat_eq c b'r'
    then 13
    else if nat_eq c b't'
    then 9
    else c

-- The reader is between characters, behind a backslash, or behind hex digits, with `left` more to come.
pub data Place : Type 0 where
  between backslash : Place
  hex : (left value : ℕ) → Place

unfoldable pub read_hex : ℕ → ℕ → Str × Place
unfolding utf8
read_hex zero v = (utf8 v, between)
read_hex (suc left) v = ([], hex left v)

-- What a byte adds to the string, and where the reader is behind it; `none` if it is no hex digit.
unfoldable pub read_byte : Place → ℕ → Option (Str × Place)
unfolding letter read_hex
read_byte between c = some (if nat_eq c b'\\' then ([], backslash) else (c ∷ [], between))
read_byte backslash c = some (if nat_eq c b'u' then ([], hex 3 0) else (letter c ∷ [], between))
read_byte (hex left v) c = elim (hex_value c) [
  | none ↦ none
  | some digit ↦ some (read_hex left (v * 16 + digit))
]

abbrev pub is_end : Place → ℕ → Bool
is_end between c = nat_eq c b'"'
is_end _ c = false

abbrev pub prepend : Str → Option (Str × Str) → Option (Str × Str)
prepend out none = none
prepend out (some (s, rest)) = some (out ++ s, rest)

-- A string up to the quote that ends it.
unfoldable pub read_string : Place → Str → Option (Str × Str)
unfolding read_byte
read_string place [] = none
read_string place (c ∷ s) = if is_end place c then some ([], s) else elim (read_byte place c) [
  | none ↦ none
  | some (out, place') ↦ prepend out (read_string place' s)
]

-- How many bytes belong to the character that begins with `c`, without it.
unfoldable pub char_tail : ℕ → Str → Option ℕ
unfolding rune_tail
char_tail c s = if ltb c 128 then some 0 else rune_tail c s

-- `utf8.ValidString`, behind `n` bytes that have been tested.
unfoldable pub is_utf8 : ℕ → Str → Bool
unfolding char_tail
is_utf8 zero [] = true
is_utf8 (suc n) [] = false
is_utf8 (suc n) (c ∷ s) = is_utf8 n s
is_utf8 zero (c ∷ s) = elim (char_tail c s) [ none ↦ false | some n ↦ is_utf8 n s ]

-- A string with its quotes.
unfoldable pub read_quoted : Str → Option (Str × Str)
unfolding read_string
read_quoted [] = none
read_quoted (c ∷ s) = if nat_eq c b'"' then read_string between s else none

-- A number in decimal, behind one that is read already.
unfoldable pub read_number : ℕ → Str → ℕ × Str
read_number acc [] = (acc, [])
read_number acc (c ∷ s) =
    let more = read_number (acc * 10 + (c - b'0')) s in
    if leb b'0' c && leb c b'9' then more else (acc, c ∷ s)
