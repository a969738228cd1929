-- ===== src/Audit/Lines.antt =====
-- The file of the logger of internal/audit/audit.go, read line by line.
use Prim.Native.String.{String}
use openclaw_relay.Base.{
  leb, Bool-cases, inl, inr, all, suc, ℕ, ◌≡◌, ◌≤◌, refl, sym, ap, ◌∙◌, true, List, [], ◌∷◌, ◌++◌,
  map, arith, nat_eq, if◌then◌else◌, All-append, All-map, append_assoc, append-nil,
}
use openclaw_relay.Base.Str.{Str, codes, Lacks}
use openclaw_relay.Base.Decimal.{digits, format, digits-AreDigits}
use openclaw_relay.Json.Quiet.{IsQuiet, quote-IsQuiet}
use openclaw_relay.Audit.{Entry}
use openclaw_relay.Audit.Logger.{Logger, marshal, log, log_all}

-- a byte in front of the first line, or of the rest if there is none
abbrev put : ℕ → List Str × Str → List Str × Str
put c ([], rest) = ([], c ∷ rest)
put c (line ∷ lines, rest) = ((c ∷ line) ∷ lines, rest)

-- The lines that end in a newline, and what is behind the last of them.
unfoldable pub cut_lines : Str → List Str × Str
cut_lines [] = ([], [])
cut_lines (c ∷ s) =
    let more = cut_lines s in if nat_eq c 10 then ([] ∷ more.0, more.1) else put c more

cut_lines_line :
    (line s : Str)
    → Lacks 10 line
    → cut_lines (line ++ 10 ∷ s) ≡ (line ∷ (cut_lines s).0, (cut_lines s).1)
unfolding cut_lines
cut_lines_line [] s h = refl
cut_lines_line (c ∷ line) s h = ground (arith, cut_lines_line line s h.1)

rest-put : (c : ℕ) (more : List Str × Str) → (put c more).1 ≡ [] → more.1 ≡ []
rest-put c ([], rest) h = ground arith
rest-put c (line ∷ lines, rest) h = h

put_behind :
    (c : ℕ) (more behind : List Str × Str)
    → (put c more).1 ≡ []
    → put c (more.0 ++ behind.0, behind.1) ≡ ((put c more).0 ++ behind.0, behind.1)
put_behind c ([], rest) behind h = ground arith
put_behind c (line ∷ lines, rest) behind h = refl

-- The lines of two texts in a row, if the first one ends with a newline.
cut_lines-append :
    (s t : Str)
    → (cut_lines s).1 ≡ []
    → cut_lines (s ++ t) ≡ ((cut_lines s).0 ++ (cut_lines t).0, (cut_lines t).1)
unfolding cut_lines
cut_lines-append [] t h = refl
cut_lines-append (c ∷ s) t h = elim (Bool-cases (nat_eq c 10)) [
  | inl newline ↦ rw (newline, cut_lines-append s t (rw (newline) at h)) refl
  | inr other ↦
      let rest = rw (other) at h in
      rw (other, cut_lines-append s t (rest-put c (cut_lines s) rest))
        (put_behind c (cut_lines s) (cut_lines t) rest)
]

join : (a b : Str) → IsQuiet a → IsQuiet b → IsQuiet (a ++ b)
unfolding IsQuiet
join a b = All-append _ a b

all-IsQuiet : (s : Str) → all (λ c. leb 32 c) s ≡ true → IsQuiet s
unfolding IsQuiet
all-IsQuiet [] h = tt
all-IsQuiet (c ∷ s) h = (ground arith, all-IsQuiet s (ground arith))

format-IsQuiet : (n : ℕ) → IsQuiet (format n)
unfolding IsQuiet format
format-IsQuiet n =
    All-map {P = λ c. (b'0' ≤ c) × (c ≤ b'9')} (λ c h. omega (arith, h.0)) (digits (suc n) n)
      (digits-AreDigits (suc n) n)

-- An entry is written without control characters, so without a newline, whatever the request holds.
marshal-IsQuiet : (e : Entry) → IsQuiet (marshal e)
unfolding marshal
marshal-IsQuiet e = join _ _ (literal "{\"timestamp\":" (unfold codes in refl)) (
    join _ _ (quote-IsQuiet e.timestamp) (
      join _ _ (literal ",\"method\":" (unfold codes in refl)) (
        join _ _ (quote-IsQuiet e.method) (
          join _ _ (literal ",\"path\":" (unfold codes in refl)) (
            join _ _ (quote-IsQuiet e.path) (
              join _ _ (literal ",\"status\":" (unfold codes in refl)) (
                join _ _ (format-IsQuiet e.status) (
                  join _ _ (literal ",\"source_ip\":" (unfold codes in refl)) (
                    join _ _ (quote-IsQuiet e.source_ip) (
                      join _ _ (literal ",\"latency_ms\":" (unfold codes in refl)) (
                        join _ _ (format-IsQuiet e.latency_ms)
                          (literal "}" (unfold codes in refl)))))))))))))
  where
    literal : (s : String) → all (λ c. leb 32 c) (codes s) ≡ true → IsQuiet (codes s)
    literal s h = all-IsQuiet (codes s) h

log-lines :
    (e : Entry) (l : Logger)
    → l.is_open ≡ true
    → (cut_lines l.file).1 ≡ []
    → cut_lines (log e l).file ≡ ((cut_lines l.file).0 ++ marshal e ∷ [], [])
unfolding log cut_lines
log-lines e l opened whole = rw (opened) (
    cut_lines-append l.file (marshal e ++ 10 ∷ []) whole
    ∙ ap (λ t. ((cut_lines l.file).0 ++ t.0, t.1))
        (cut_lines_line (marshal e) [] (
          All-map {P = λ c. 32 ≤ c} (λ c h same. omega (arith, h, same)) (marshal e)
            (unfold IsQuiet in marshal-IsQuiet e))))

-- Whatever bytes the requests hold, the file gets one line for each entry, in their order, which is its
-- JSON, behind the lines that it had, if those end with a newline and the logger is not closed.
pub log_all-lines :
    (entries : List Entry) (l : Logger)
    → l.is_open ≡ true
    → (cut_lines l.file).1 ≡ []
    → cut_lines (log_all entries l).file ≡ ((cut_lines l.file).0 ++ map marshal entries, [])
unfolding log_all log
log_all-lines [] l opened whole = λ i. (sym (append-nil (cut_lines l.file).0) i, whole i)
log_all-lines (e ∷ entries) l opened whole =
    let first = log-lines e l opened whole in
    log_all-lines entries (log e l) (ground arith) (ap (λ t. t.1) first)
    ∙ ap (λ t. (t.0 ++ map marshal entries, [])) first
    ∙ ap (λ t. (t, [])) (append_assoc (cut_lines l.file).0 (marshal e ∷ []) (map marshal entries))
