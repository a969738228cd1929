-- ===== src/Json/Quiet.antt =====
-- What the strings of encoding/json keep out of the bytes that internal/audit/audit.go writes.
use mathlib.Core.Path.{subst}
use mathlib.Core.Option.{none-ne-some, some-injective}
use openclaw_relay.Base.{
  ℕ, zero, suc, ◌≤◌, ◌≡◌, Bool, true, ◌&&◌, Option, some, [], ◌∷◌, arith, ltb, if◌then◌else◌, All,
  All-append, Bool-cases, Option-cases, inl, inr,
}
use openclaw_relay.Base.Str.{Str, codes}
use openclaw_relay.Json.{
  escape_byte, continues, rune_tail, separator, Mode, start, copy, leave_out, copying, begin, step,
  escape, quote,
}

-- no byte is a control character
unfoldable pub IsQuiet : Str → Type 0
IsQuiet = All (λ c. 32 ≤ c)

escape_byte-IsQuiet : (c : ℕ) → IsQuiet (escape_byte c)
unfolding IsQuiet escape_byte codes
escape_byte-IsQuiet c = ground arith

-- the next `n` bytes are not ASCII
abbrev pub IsHeld : ℕ → Str → Type 0
IsHeld zero s = Unit
IsHeld (suc n) [] = Unit
IsHeld (suc n) (c ∷ s) = (128 ≤ c) × IsHeld n s

continues-IsHeld :
    (n low high : ℕ) (s : Str) → 128 ≤ low → continues n low high s ≡ true → IsHeld n s
unfolding continues
continues-IsHeld zero low high s h e = tt
continues-IsHeld (suc n) low high [] h e = tt
continues-IsHeld (suc n) low high (c ∷ s) h e =
    (ground arith, continues-IsHeld n 128 191 s (omega arith) (ground arith))

if_continues :
    (s : Str) (n : ℕ) (test : Bool) (k low high : ℕ) (rest : Option ℕ)
    → 128 ≤ low
    → (rest ≡ some n → IsHeld n s)
    → (if test && continues k low high s then some k else rest) ≡ some n
    → IsHeld n s
if_continues s n test k low high rest h more e =
    elim (Bool-cases (test && continues k low high s)) [
      | inl fits ↦
          subst (λ m. IsHeld m s) (some-injective k n (rw (fits) at e))
            (continues-IsHeld k low high s h (ground arith))
      | inr fails ↦ more (rw (fails) at e)
    ]

pub rune_tail-IsHeld : (c : ℕ) (s : Str) (n : ℕ) → rune_tail c s ≡ some n → IsHeld n s
unfolding rune_tail
rune_tail-IsHeld c s n = if_continues s n _ 1 128 191 _ (omega arith) (
    if_continues s n _ 2 160 191 _ (omega arith) (
      if_continues s n _ 2 128 191 _ (omega arith) (
        if_continues s n _ 2 128 159 _ (omega arith) (
          if_continues s n _ 3 144 191 _ (omega arith) (
            if_continues s n _ 3 128 191 _ (omega arith)
              (if_continues s n _ 3 128 143 _ (omega arith) (λ e. absurd (none-ne-some n e))))))))

-- what the mode says of the bytes ahead
abbrev Ahead : Mode → Str → Type 0
Ahead start s = Unit
Ahead (copy n) s = IsHeld (suc n) s
Ahead (leave_out n) s = Unit

Ahead-copying : (n : ℕ) (s : Str) → IsHeld n s → Ahead (copying n) s
Ahead-copying zero s h = tt
Ahead-copying (suc n) s h = h

separator_hex : (c : ℕ) (s : Str) (d : ℕ) → separator c s ≡ some d → 32 ≤ d
unfolding separator
separator_hex c [] d e = absurd (none-ne-some d e)
separator_hex c (a ∷ []) d e = absurd (none-ne-some d e)
separator_hex c (a ∷ b ∷ s) d e = ground arith

begin-IsQuiet : (c : ℕ) (s : Str) → IsQuiet (begin c s).0 × Ahead (begin c s).1 s
unfolding IsQuiet begin codes
begin-IsQuiet c s = elim (Bool-cases (ltb c 128)) [
  | inl ascii ↦ rw (ascii) (escape_byte-IsQuiet c, tt)
  | inr more ↦ elim (Option-cases (rune_tail c s)) [
    | inl bad ↦ rw (more, bad) ((ground arith), tt)
    | inr (n, good) ↦ elim (Option-cases (separator c s)) [
      | inl lacking ↦
          rw (more, good, lacking)
            ((ground arith, tt), Ahead-copying n s (rune_tail-IsHeld c s n good))
      | inr (d, found) ↦ rw (more, good, found) (ground (arith, separator_hex c s d found), tt)
    ]
  ]
]

step-IsQuiet :
    (m : Mode) (c : ℕ) (s : Str) → Ahead m (c ∷ s) → IsQuiet (step m c s).0 × Ahead (step m c s).1 s
unfolding IsQuiet step
step-IsQuiet start c s h = begin-IsQuiet c s
step-IsQuiet (copy n) c s h = ((omega (arith, h.0), tt), Ahead-copying n s h.1)
step-IsQuiet (leave_out zero) c s h = (tt, tt)
step-IsQuiet (leave_out (suc n)) c s h = (tt, tt)

escape-IsQuiet : (m : Mode) (s : Str) → Ahead m s → IsQuiet (escape m s)
unfolding IsQuiet escape
escape-IsQuiet m [] h = tt
escape-IsQuiet m (c ∷ s) h =
    let (quiet, ahead) = step-IsQuiet m c s h in
    All-append _ (step m c s).0 (escape (step m c s).1 s) quiet
      (escape-IsQuiet (step m c s).1 s ahead)

pub quote-IsQuiet : (s : Str) → IsQuiet (quote s)
unfolding IsQuiet quote
quote-IsQuiet s = (
  omega arith,
  All-append _ (escape start s) (b'"' ∷ []) (escape-IsQuiet start s tt) (omega arith, tt),
)
