-- ===== src/RateLimit/Window.antt =====
-- Duplicate suppression: a key that was let through is held back for `ttl`.
use mathlib.Core.Path.{subst}
use openclaw_relay.Base.{
  ap, sym, refl, ◌∙◌, true, ◌≢◌, [], ℕ, ◌+◌, ◌≤◌, ◌<◌, ◌≡◌, inl, inr, refl, false, some, arith, ltb,
  if◌then◌else◌, length, Bool-cases, tests,
}
use openclaw_relay.Base.Str.{eq_iff, Str, ◌==◌}
use openclaw_relay.Base.Map.{Ranges, Map, lookup, insert, lookup-insert, length-insert_le}
use openclaw_relay.RateLimit.{
  Limiter, max_entries, is_recent, allow, cleanup, Timed, Step, call, tick, Steps, here, next,
}
use openclaw_relay.RateLimit.Invariant.{Step-IsValid, IsValid, Steps-IsValid}
use openclaw_relay.RateLimit.Sweep.{cleanup-lookup}

-- Before each step the map has room for one more entry, so that no step evicts.
abbrev pub HasRoom : {s t : Timed} → Steps s t → Type 0
HasRoom here = Unit
HasRoom (next {t} steps step) = HasRoom steps × (length t.limiter.seen < max_entries)

-- The key has an entry of time `t0` or later, and `ttl` is as given.
record Keeps (key : Str) (t0 ttl : ℕ) (l : Limiter) : Type 0 where
  last : ℕ
  held : lookup key l.seen ≡ some last
  later : t0 ≤ last
  same_ttl : l.ttl ≡ ttl

allow-Keeps :
    (order : Map ℕ) (since now : ℕ) (key k : Str) (t0 ttl : ℕ) (l : Limiter)
    → length l.seen < max_entries
    → t0 ≤ now
    → Keeps k t0 ttl l
    → Keeps k t0 ttl (allow order since now key l).0
unfolding allow
allow-Keeps order since now key k t0 ttl l room before keeps =
    let small : ltb max_entries (length (insert key now l.seen)) ≡ false =
      omega (tests, length-insert_le key now l.seen) in
    elim (Bool-cases (is_recent l since key)) [
      | inl recent ↦ rw recent keeps
      | inr fresh ↦
          rw (fresh, small)
            (record {
              last = if key == k then now else keeps.last;
              held = ground (arith, lookup-insert key k now l.seen, keeps.held);
              later = ground (arith, keeps.later);
              same_ttl = keeps.same_ttl;
            })
    ]

Step-Keeps :
    {s t : Timed} (key : Str) (t0 ttl : ℕ)
    → Step s t
    → length s.limiter.seen < max_entries
    → IsValid s.limiter
    → t0 ≤ s.clock
    → t.clock < t0 + ttl
    → Keeps key t0 ttl s.limiter
    → Keeps key t0 ttl t.limiter
Step-Keeps {s} k t0 ttl (call key order since now _ p q _) room valid begun soon keeps =
    allow-Keeps order since now key k t0 ttl s.limiter room (omega arith) keeps
Step-Keeps {s} k t0 ttl (tick visits now p ranges readings) room valid begun soon keeps =
    let exact = cleanup-lookup visits s.limiter s.clock now k valid.unique ranges readings in
    record {
      last = keeps.last;
      held = exact.0 keeps.last keeps.held (omega (arith, keeps.later, keeps.same_ttl));
      later = keeps.later;
      same_ttl = unfold cleanup in keeps.same_ttl;
    }

clock-Step : {s t : Timed} → Step s t → s.clock ≤ t.clock
clock-Step (call key order since now _ p q _) = omega arith
clock-Step (tick visits now p _ _) = p

clock-Steps : {s t : Timed} → Steps s t → s.clock ≤ t.clock
clock-Steps here = omega arith
clock-Steps (next steps step) = omega (arith, clock-Steps steps, clock-Step step)

Steps-Keeps :
    {s t : Timed} (key : Str) (t0 ttl : ℕ) (steps : Steps s t)
    → HasRoom steps
    → IsValid s.limiter
    → t0 ≤ s.clock
    → t.clock < t0 + ttl
    → Keeps key t0 ttl s.limiter
    → Keeps key t0 ttl t.limiter
Steps-Keeps key t0 ttl here room valid begun soon keeps = keeps
Steps-Keeps key t0 ttl (next steps step) room valid begun soon keeps =
    let before = clock-Steps steps in
    let after = clock-Step step in
    Step-Keeps key t0 ttl step room.1 (Steps-IsValid valid steps) (omega arith) soon
      (Steps-Keeps key t0 ttl steps room.0 valid begun (omega arith) keeps)

-- A key with an entry of time `t0` is held back at every time before `t0 + ttl`, whatever calls of
-- `Allow` and rounds of `cleanup` come in between, as long as the map has room for their keys.
pub allow_again-eq-false :
    {s t : Timed} (key : Str) (t0 : ℕ) (steps : Steps s t) (order : Map ℕ) (since now : ℕ)
    → IsValid s.limiter
    → HasRoom steps
    → lookup key s.limiter.seen ≡ some t0
    → t0 ≤ s.clock
    → t.clock ≤ since
    → since < t0 + s.limiter.ttl
    → allow order since now key t.limiter ≡ (t.limiter, false)
unfolding allow is_recent
allow_again-eq-false {s} {t} key t0 steps order since now valid room held begun later soon =
    let keeps =
      Steps-Keeps key t0 s.limiter.ttl steps room valid begun (omega arith)
        (record { last = t0; held = held; later = omega arith; same_ttl = refl }) in
    ground (arith, keeps.held, keeps.later, keeps.same_ttl)

held-allow :
    (order : Map ℕ) (since now : ℕ) (key : Str) (l : Limiter)
    → length l.seen < max_entries
    → (allow order since now key l).1 ≡ true
    → (lookup key (allow order since now key l).0.seen ≡ some now)
      × ((allow order since now key l).0.ttl ≡ l.ttl)
unfolding allow
held-allow order since now key l room passed =
    let small : ltb max_entries (length (insert key now l.seen)) ≡ false =
      omega (tests, length-insert_le key now l.seen) in
    elim (Bool-cases (is_recent l since key)) [
      | inl recent ↦ absurd (ground arith)
      | inr fresh ↦
          rw (fresh, small) (ground (arith, lookup-insert key key now l.seen, eq_iff key key), refl)
    ]

-- A second call of `Allow`, from a state that steps reach from `u`, which a call that was let
-- through has left.
pub allow_after-eq-false :
    (s u : Timed) {t : Timed} (key : Str) (order order' : Map ℕ) (since now since' now' : ℕ)
    → IsValid s.limiter
    → key ≢ []
    → s.clock ≤ since
    → since ≤ now
    → Ranges order (insert key now s.limiter.seen)
    → length s.limiter.seen < max_entries
    → (allow order since now key s.limiter).1 ≡ true
    → u.limiter ≡ (allow order since now key s.limiter).0
    → u.clock ≡ now
    → (steps : Steps u t) → HasRoom steps
    → t.clock ≤ since'
    → since' < now + s.limiter.ttl
    → allow order' since' now' key t.limiter ≡ (t.limiter, false)
allow_after-eq-false s u key order order' since now since' now' valid named p q ranges room passed
      left clock steps rooms later soon =
    let held = held-allow order since now key s.limiter room passed in
    let unchanged : u.limiter.ttl ≡ s.limiter.ttl = ap (λ l. l.ttl) left ∙ held.1 in
    allow_again-eq-false key now steps order' since' now'
      (subst IsValid (sym left) (Step-IsValid (call key order since now named p q ranges) valid))
      rooms (ap (λ l. lookup key l.seen) left ∙ held.0) (omega arith) later (omega arith)

-- Of two calls of `Allow` with one key, less than `ttl` apart, the second says no if the first said
-- yes, whatever calls of `Allow` and rounds of `cleanup` come in between, as long as the map has
-- room for the keys. The second call changes nothing.
pub allow_twice-eq-false :
    (s : Timed) {t : Timed} (key : Str) (order order' : Map ℕ) (since now since' now' : ℕ)
    → IsValid s.limiter
    → key ≢ []
    → s.clock ≤ since
    → since ≤ now
    → Ranges order (insert key now s.limiter.seen)
    → length s.limiter.seen < max_entries
    → (allow order since now key s.limiter).1 ≡ true
    → (steps : Steps (record { limiter = (allow order since now key s.limiter).0; clock = now }) t)
    → HasRoom steps
    → t.clock ≤ since'
    → since' < now + s.limiter.ttl
    → allow order' since' now' key t.limiter ≡ (t.limiter, false)
allow_twice-eq-false s key order order' since now since' now' valid named p q ranges room passed
      steps rooms later soon =
    allow_after-eq-false s
      (record { limiter = (allow order since now key s.limiter).0; clock = now }) key order order'
      since now since' now' valid named p q ranges room passed refl refl steps rooms later soon
