-- ===== src/Json/RoundTrip.antt =====
-- What the strings of encoding/json, as internal/audit/audit.go writes them, are read as.
use mathlib.Core.Path.{subst}
use mathlib.Core.Bool.{false≢true}
use mathlib.Core.Option.{none-ne-some}
use openclaw_relay.Base.{
  ◌⊎◌, ℕ, zero, suc, ◌≡◌, ◌≢◌, refl, sym, ap, ◌∙◌, true, none, some, [], ◌∷◌, ◌++◌, arith, ltb,
  drop, Bool-cases, Option-cases, inl, inr, append_assoc, append-nil,
}
use openclaw_relay.Base.Str.{Str, codes}
use openclaw_relay.Json.{
  continues, rune_tail, separator, Mode, start, copy, leave_out, copying, begin, step, escape,
  quote,
}
use openclaw_relay.Json.Quiet.{IsHeld, rune_tail-IsHeld}
use openclaw_relay.Json.Spelling.{
  Spells, prepend-nil, plain-Spells, code-Spells, escape_byte-Spells, append-Spells,
}
use openclaw_relay.Json.Reader.{utf8, between, read_string, char_tail, is_utf8, read_quoted}

-- what the rest of the string is read as, and what the rest has to be
abbrev unread : Mode → Str → Str
unread start s = s
unread (copy n) s = s
unread (leave_out n) s = drop (suc n) s

abbrev IsText : Mode → Str → Type 0
IsText start s = is_utf8 0 s ≡ true
IsText (copy n) s = (is_utf8 (suc n) s ≡ true) × IsHeld (suc n) s
IsText (leave_out n) s = is_utf8 (suc n) s ≡ true

IsText-copying : (n : ℕ) (s : Str) → is_utf8 n s ≡ true → IsHeld n s → IsText (copying n) s
IsText-copying zero s valid held = valid
IsText-copying (suc n) s valid held = (valid, held)

unread-copying : (n : ℕ) (s : Str) → unread (copying n) s ≡ s
unread-copying zero s = refl
unread-copying (suc n) s = refl

-- A byte is written so that it is read as `out`, which with what is read behind it is the rest here.
record Turns (written : Str) (m : Mode) (s rest : Str) : Type 0 where
  out : Str
  spelled : Spells written out
  text : IsText m s
  same : out ++ unread m s ≡ rest

tail_valid :
    (c : ℕ) (s : Str) (n : ℕ)
    → is_utf8 0 (c ∷ s) ≡ true
    → char_tail c s ≡ some n
    → is_utf8 n s ≡ true
unfolding is_utf8
tail_valid c s n valid h = rw (h, is_utf8) at valid

tail_known : (c : ℕ) (s : Str) → is_utf8 0 (c ∷ s) ≡ true → char_tail c s ≢ none
unfolding is_utf8
tail_known c s valid h = absurd (false≢true (rw (h, is_utf8) at valid))

-- U+2028 and U+2029
Turns-line :
    (s : Str)
    → is_utf8 0 (226 ∷ 128 ∷ 168 ∷ s) ≡ true
    → Turns (codes "\\u2028") (leave_out 1) (128 ∷ 168 ∷ s) (226 ∷ 128 ∷ 168 ∷ s)
unfolding codes is_utf8 char_tail rune_tail continues utf8
Turns-line s valid = record {
  out = 226 ∷ 128 ∷ 168 ∷ [];
  spelled = code-Spells 2 0 2 8 (omega arith) (omega arith) (omega arith) (omega arith);
  text = valid;
  same = refl;
}

Turns-paragraph :
    (s : Str)
    → is_utf8 0 (226 ∷ 128 ∷ 169 ∷ s) ≡ true
    → Turns (codes "\\u2029") (leave_out 1) (128 ∷ 169 ∷ s) (226 ∷ 128 ∷ 169 ∷ s)
unfolding codes is_utf8 char_tail rune_tail continues utf8
Turns-paragraph s valid = record {
  out = 226 ∷ 128 ∷ 169 ∷ [];
  spelled = code-Spells 2 0 2 9 (omega arith) (omega arith) (omega arith) (omega arith);
  text = valid;
  same = refl;
}

separator_bytes :
    (c a b : ℕ) (s : Str) (d : ℕ)
    → separator c (a ∷ b ∷ s) ≡ some d
    → (c ≡ 226) × (a ≡ 128) × ((b ≡ 168) × (d ≡ b'8') ⊎ (b ≡ 169) × (d ≡ b'9'))
unfolding separator
separator_bytes c a b s d h = ground arith

Turns-separator :
    (c : ℕ) (s : Str) (d : ℕ)
    → is_utf8 0 (c ∷ s) ≡ true
    → separator c s ≡ some d
    → Turns (codes "\\u202" ++ d ∷ []) (leave_out 1) s (c ∷ s)
unfolding codes
Turns-separator c [] d valid h = absurd (none-ne-some d (unfold separator in h))
Turns-separator c (a ∷ []) d valid h = absurd (none-ne-some d (unfold separator in h))
Turns-separator c (a ∷ b ∷ s) d valid h =
    let (first, second, third) = separator_bytes c a b s d h in
    elim third [
      | inl (at_b, at_d) ↦
          rw (first, second, at_b, at_d) (Turns-line s (rw (first, second, at_b) at valid))
      | inr (at_b, at_d) ↦
          rw (first, second, at_b, at_d) (Turns-paragraph s (rw (first, second, at_b) at valid))
    ]

Turns-begin :
    (c : ℕ) (s : Str) → is_utf8 0 (c ∷ s) ≡ true → Turns (begin c s).0 (begin c s).1 s (c ∷ s)
unfolding begin
Turns-begin c s valid = elim (Bool-cases (ltb c 128)) [
  | inl ascii ↦ rw (ascii) (record {
    out = c ∷ [];
    spelled = escape_byte-Spells c (ground arith);
    text = tail_valid c s 0 valid (unfold char_tail in rw (ascii) refl);
    same = refl;
  })
  | inr more ↦ elim (Option-cases (rune_tail c s)) [
    | inl bad ↦ absurd (tail_known c s valid (unfold char_tail in rw (more) bad))
    | inr (n, good) ↦ elim (Option-cases (separator c s)) [
      | inr (d, found) ↦ rw (more, good, found) (Turns-separator c s d valid found)
      | inl lacking ↦
          rw (more, good, lacking)
            (record {
              out = c ∷ [];
              spelled = plain-Spells c (ground arith) (ground arith);
              text =
                  IsText-copying n s (tail_valid c s n valid (unfold char_tail in rw (more) good))
                    (rune_tail-IsHeld c s n good);
              same = ap (λ t. c ∷ t) (unread-copying n s);
            })
    ]
  ]
]

Turns-step :
    (m : Mode) (c : ℕ) (s : Str)
    → IsText m (c ∷ s)
    → Turns (step m c s).0 (step m c s).1 s (unread m (c ∷ s))
unfolding step
Turns-step start c s text = Turns-begin c s text
Turns-step (copy n) c s (valid, (high, held)) = record {
  out = c ∷ [];
  spelled = plain-Spells c (omega (arith, high)) (omega (arith, high));
  text = IsText-copying n s (unfold is_utf8 in valid) held;
  same = ap (λ t. c ∷ t) (unread-copying n s);
}
Turns-step (leave_out zero) c s text = record {
  out = [];
  spelled = λ t. sym (prepend-nil (read_string between t));
  text = unfold is_utf8 in text;
  same = refl;
}
Turns-step (leave_out (suc n)) c s text = record {
  out = [];
  spelled = λ t. sym (prepend-nil (read_string between t));
  text = unfold is_utf8 in text;
  same = refl;
}

escape-Spells : (m : Mode) (s : Str) → IsText m s → Spells (escape m s) (unread m s)
unfolding escape
escape-Spells start [] text t = sym (prepend-nil (read_string between t))
escape-Spells (copy n) [] text t = absurd (false≢true (unfold is_utf8 in text.0))
escape-Spells (leave_out n) [] text t = absurd (false≢true (unfold is_utf8 in text))
escape-Spells m (c ∷ s) text t =
    let turn = Turns-step m c s text in
    subst (Spells ((step m c s).0 ++ escape (step m c s).1 s)) turn.same
      (append-Spells (step m c s).0 (escape (step m c s).1 s) turn.out (unread (step m c s).1 s)
        turn.spelled (escape-Spells (step m c s).1 s turn.text))
      t

-- A string in UTF-8 is read as it was written.
pub read_quoted-quote : (s t : Str) → is_utf8 0 s ≡ true → read_quoted (quote s ++ t) ≡ some (s, t)
unfolding read_quoted quote
read_quoted-quote s t valid =
    ap (read_string between) (append_assoc (escape start s) (b'"' ∷ []) t)
    ∙ escape-Spells start s valid (b'"' ∷ t)
    ∙ unfold read_string in ap (λ u. some (u, t)) (append-nil s)
