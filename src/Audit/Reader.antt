-- ===== src/Audit/Reader.antt =====
-- A reader of the lines of the audit log of internal/audit/audit.go, to state what they hold.
use mathlib.Core.List.{map-append}
use openclaw_relay.Base.{
  suc, ◌-◌, ◌*◌, ℕ, ◌+◌, ◌≡◌, refl, ap, ◌∙◌, true, false, ◌&&◌, Option, none, some, List, [], ◌∷◌,
  ◌++◌, map, arith, leb, if◌then◌else◌, All,
}
use openclaw_relay.Base.Str.{◌==◌, Str, codes, cut_prefix, cut_prefix-append}
use openclaw_relay.Base.Decimal.{format, value, value-digits, AreDigits, digits-AreDigits}
use openclaw_relay.Json.{quote}
use openclaw_relay.Json.Reader.{is_utf8, read_quoted, read_number}
use openclaw_relay.Json.RoundTrip.{read_quoted-quote}
use openclaw_relay.Audit.{Entry}
use openclaw_relay.Audit.Logger.{Logger, marshal, log_all}
use openclaw_relay.Audit.Lines.{cut_lines, log_all-lines}

infixl 5 ◌>>=◌
abbrev ◌>>=◌ : {A B : Type 0} → Option A → (A → Option B) → Option B
none >>= f = none
some a >>= f = f a

-- Nothing but the brace is left of the line.
unfoldable ended : Str → Entry → Option Entry
ended s e = if s == codes "}" then some e else none

-- The fields in the order in which they are written.
unfoldable pub read_entry : Str → Option Entry
unfolding cut_prefix read_quoted read_number ended
read_entry s = do
  s1 ← cut_prefix s (codes "{\"timestamp\":")
  (timestamp, s2) ← read_quoted s1
  s3 ← cut_prefix s2 (codes ",\"method\":")
  (method, s4) ← read_quoted s3
  s5 ← cut_prefix s4 (codes ",\"path\":")
  (path, s6) ← read_quoted s5
  s7 ← cut_prefix s6 (codes ",\"status\":")
  let status = read_number 0 s7
  s9 ← cut_prefix status.1 (codes ",\"source_ip\":")
  (source_ip, s10) ← read_quoted s9
  s11 ← cut_prefix s10 (codes ",\"latency_ms\":")
  let latency = read_number 0 s11
  ended latency.1 (record {
    timestamp = timestamp;
    method = method;
    path = path;
    status = status.0;
    source_ip = source_ip;
    latency_ms = latency.0;
  })

-- The texts of the entry are in UTF-8.
pub record IsReadable (e : Entry) : Type 0 where
  pub timestamp : is_utf8 0 e.timestamp ≡ true
  pub method : is_utf8 0 e.method ≡ true
  pub path : is_utf8 0 e.path ≡ true
  pub source_ip : is_utf8 0 e.source_ip ≡ true

read_number-digits :
    (acc : ℕ) (s : Str) (c : ℕ) (t : Str)
    → AreDigits s
    → (leb b'0' c && leb c b'9') ≡ false
    → read_number acc (s ++ c ∷ t) ≡ (value acc s, c ∷ t)
unfolding read_number value
read_number-digits acc [] c t h other = rw (other) refl
read_number-digits acc (d ∷ s) c t h other =
    let more = read_number-digits (acc * 10 + (d - b'0')) s c t h.1 other in
    ground (arith, more, h.0)

read_format :
    (n c : ℕ) (t : Str)
    → (leb b'0' c && leb c b'9') ≡ false
    → read_number 0 (format n ++ c ∷ t) ≡ (n, c ∷ t)
unfolding format
read_format n c t other =
    read_number-digits 0 (format n) c t (digits-AreDigits (suc n) n) other
    ∙ ap (λ v. (v, c ∷ t)) (value-digits (suc n) n (omega arith))

-- An entry is read as it was written.
read_entry-marshal : (e : Entry) → IsReadable e → read_entry (marshal e) ≡ some e
unfolding read_entry marshal
read_entry-marshal e h =
    let first : (t : Str) → read_quoted (quote e.timestamp ++ t) ≡ some (e.timestamp, t) =
      λ t. read_quoted-quote e.timestamp t h.timestamp in
    let second : (t : Str) → read_quoted (quote e.method ++ t) ≡ some (e.method, t) =
      λ t. read_quoted-quote e.method t h.method in
    let third : (t : Str) → read_quoted (quote e.path ++ t) ≡ some (e.path, t) =
      λ t. read_quoted-quote e.path t h.path in
    let fourth : (t : Str) → read_quoted (quote e.source_ip ++ t) ≡ some (e.source_ip, t) =
      λ t. read_quoted-quote e.source_ip t h.source_ip in
    let status : (t : Str)
        → read_number 0 (format e.status ++ (codes ",\"source_ip\":" ++ t))
          ≡ (e.status, codes ",\"source_ip\":" ++ t) =
      λ t. unfold codes in read_format e.status _ _ refl in
    let latency : read_number 0 (format e.latency_ms ++ codes "}") ≡ (e.latency_ms, codes "}") =
      unfold codes in read_format e.latency_ms _ _ refl in
    simp (cut_prefix-append, first, second, third, fourth, status, latency)
      (unfold codes ◌==◌ in refl)

read_back :
    (entries : List Entry)
    → All IsReadable entries
    → map read_entry (map marshal entries) ≡ map some entries
read_back [] h = refl
read_back (e ∷ entries) h = rw (read_entry-marshal e h.0, read_back entries h.1) refl

-- The file, read line by line, has the entries that were logged, each once and in their order, behind
-- what was read from it before, if their texts are in UTF-8, the logger is not closed, and the file
-- ended with a newline.
pub log_all-entries :
    (entries : List Entry) (l : Logger)
    → l.is_open ≡ true
    → (cut_lines l.file).1 ≡ []
    → All IsReadable entries
    → map read_entry (cut_lines (log_all entries l).file).0
      ≡ map read_entry (cut_lines l.file).0 ++ map some entries
log_all-entries entries l opened whole readable =
    ap (λ t. map read_entry t.0) (log_all-lines entries l opened whole)
    ∙ map-append read_entry (cut_lines l.file).0 (map marshal entries)
    ∙ ap (λ t. map read_entry (cut_lines l.file).0 ++ t) (read_back entries readable)
