-- ===== src/RateLimit/Refinement.antt =====
-- The limiter of internal/ratelimit/limiter.go against a log of its calls that forgets nothing.
use openclaw_relay.Base.{
  All, ℕ, ◌+◌, ◌≤◌, ◌<◌, ◌≡◌, ◌⊎◌, inl, inr, refl, Bool, true, false, none, some, List, [], ◌∷◌,
  arith, tests, ltb, leb, if◌then◌else◌, length, Bool-cases, Option-cases,
}
use openclaw_relay.Base.Str.{Str, ◌==◌}
use openclaw_relay.Base.Map.{
  Ranges, Map, lookup, insert, delete, HasUniqueKeys, lookup-insert, lookup-delete,
  delete-HasUniqueKeys, length-insert_le,
}
use openclaw_relay.RateLimit.{
  visited, Limiter, max_entries, new, is_recent, allow, sweep, cleanup, Visit, Timed, Step, call,
  tick, Steps, here, next,
}
use openclaw_relay.RateLimit.Invariant.{IsValid, Steps-IsValid, new-IsValid}
use openclaw_relay.RateLimit.Sweep.{cleanup-lookup}
use openclaw_relay.RateLimit.Window.{HasRoom}

-- The calls that were let through, with their times, the newest first.
abbrev pub Log : Type 0
Log = List (Str × ℕ)

-- The specification of `Allow`: yes, unless the last call with the key that was let through is less than
-- `ttl` ago.
abbrev pub passes : ℕ → Log → Str → ℕ → Bool
passes ttl log key since = elim (lookup key log) [
  | none ↦ true
  | some last ↦ leb (last + ttl) since
]

abbrev pub after_call : ℕ → Log → Str → ℕ → ℕ → Log
after_call ttl log key since now = if passes ttl log key since then (key, now) ∷ log else log

-- The log behind a step; a clean-up is none of its business.
abbrev pub after_step : {s t : Timed} → ℕ → Log → Step s t → Log
after_step ttl log (call key order since now _ _ _ _) = after_call ttl log key since now
after_step ttl log (tick visits now _ _ _) = log

abbrev pub log_of : {s t : Timed} → ℕ → Steps s t → Log
log_of ttl here = []
log_of ttl (next steps step) = after_step ttl (log_of ttl steps) step

-- The map has what the log has of a key, or has lost an entry that is out of date.
record Tracks (ttl clock : ℕ) (log : Log) (l : Limiter) : Type 0 where
  same_ttl : l.ttl ≡ ttl
  agrees :
      (k : Str)
      → (lookup k l.seen ≡ lookup k log)
        ⊎ ((lookup k l.seen ≡ none)
            × ((last : ℕ) × (lookup k log ≡ some last) × (last + ttl ≤ clock)))

allow-passes :
    (ttl clock : ℕ) (log : Log) (order : Map ℕ) (since now : ℕ) (key : Str) (l : Limiter)
    → Tracks ttl clock log l
    → clock ≤ since
    → (allow order since now key l).1 ≡ passes ttl log key since
unfolding allow is_recent
allow-passes ttl clock log order since now key l tracks later = elim (tracks.agrees key) [
  | inl same ↦ ground (arith, same, tracks.same_ttl)
  | inr (gone, (last, logged, old)) ↦ ground (arith, gone, logged, old)
]

lookup-after_call :
    (ttl : ℕ) (log : Log) (key : Str) (since now : ℕ) (k : Str)
    → passes ttl log key since ≡ true
    → lookup k (after_call ttl log key since now) ≡ (if key == k then some now else lookup k log)
unfolding lookup
lookup-after_call ttl log key since now k h = rw (h) refl

allow-Tracks :
    (ttl clock : ℕ) (log : Log) (order : Map ℕ) (since now : ℕ) (key : Str) (l : Limiter)
    → length l.seen < max_entries
    → clock ≤ since
    → since ≤ now
    → Tracks ttl clock log l
    → Tracks ttl now (after_call ttl log key since now) (allow order since now key l).0
unfolding allow
allow-Tracks ttl clock log order since now key l room later on tracks =
    let answer = allow-passes ttl clock log order since now key l tracks later in
    let small : ltb max_entries (length (insert key now l.seen)) ≡ false =
      omega (tests, length-insert_le key now l.seen) in
    elim (Bool-cases (is_recent l since key)) [
      | inl recent ↦
          let refused : passes ttl log key since ≡ false = ground (arith, recent, answer) in
          rw (recent, refused)
            (record { same_ttl = tracks.same_ttl; agrees = λ k. ground (arith, tracks.agrees k) })
      | inr fresh ↦
          let passed : passes ttl log key since ≡ true = ground (arith, fresh, answer) in
          rw (fresh, small)
            (record {
              same_ttl = tracks.same_ttl;
              agrees = λ k. ground (
                arith,
                lookup-after_call ttl log key since now k passed,
                lookup-insert key k now l.seen,
                tracks.agrees k,
              );
            })
    ]

-- A sweep leaves an entry as it was or removes it.
lookup-sweep :
    (ttl : ℕ) (visits : List Visit) (seen : Map ℕ) (k : Str)
    → HasUniqueKeys seen
    → (lookup k (sweep ttl visits seen) ≡ lookup k seen) ⊎ (lookup k (sweep ttl visits seen) ≡ none)
unfolding sweep
lookup-sweep ttl [] seen k unique = inl refl
lookup-sweep ttl (v ∷ visits) seen k unique = elim (Bool-cases (ltb (v.time + ttl) v.now)) [
  | inl old ↦ rw (old) (
      ground (
        arith,
        lookup-sweep ttl visits (delete v.key seen) k (delete-HasUniqueKeys v.key seen unique),
        lookup-delete v.key k seen unique,
      ))
  | inr young ↦ rw (young) (lookup-sweep ttl visits seen k unique)
]

cleanup-Tracks :
    (ttl : ℕ) (log : Log) {s : Timed} (visits : List Visit) (now : ℕ)
    → s.clock ≤ now
    → Ranges (visited visits) s.limiter.seen
    → All (λ v. (s.clock ≤ v.now) × (v.now ≤ now)) visits
    → IsValid s.limiter
    → Tracks ttl s.clock log s.limiter
    → Tracks ttl now log (cleanup visits s.limiter)
unfolding cleanup
cleanup-Tracks ttl log {s} visits now on ranges readings valid tracks = record {
  same_ttl = tracks.same_ttl;
  agrees = λ k. swept k (Option-cases (lookup k s.limiter.seen));
}
  where
    swept :
        (k : Str)
        → (lookup k s.limiter.seen ≡ none) ⊎ ((last : ℕ) × (lookup k s.limiter.seen ≡ some last))
        → (lookup k (cleanup visits s.limiter).seen ≡ lookup k log)
          ⊎ ((lookup k (cleanup visits s.limiter).seen ≡ none)
              × ((last : ℕ) × (lookup k log ≡ some last) × (last + ttl ≤ now)))
    swept k (inl missing) =
        let exact = cleanup-lookup visits s.limiter s.clock now k valid.unique ranges readings in
        ground (arith, exact.2 missing, tracks.agrees k, missing)
    swept k (inr (last, held)) =
        let exact = cleanup-lookup visits s.limiter s.clock now k valid.unique ranges readings in
        let either = lookup-sweep s.limiter.ttl visits s.limiter.seen k valid.unique in
        elim (Bool-cases (leb now (last + ttl))) [
          | inl alive ↦
              inl (ground (arith, exact.0 last held, alive, tracks.same_ttl, tracks.agrees k, held))
          | inr dead ↦ ground (arith, either, tracks.agrees k, held, dead)
        ]

Steps-Tracks :
    (ttl clock : ℕ) {t : Timed} (steps : Steps (record { limiter = new ttl; clock = clock }) t)
    → HasRoom steps
    → Tracks ttl t.clock (log_of ttl steps) t.limiter
unfolding new
Steps-Tracks ttl clock here room = record { same_ttl = refl; agrees = λ k. inl refl }
Steps-Tracks ttl clock (next {t} steps (call key order since now _ p q _)) room =
    allow-Tracks ttl t.clock (log_of ttl steps) order since now key t.limiter room.1 p q
      (Steps-Tracks ttl clock steps room.0)
Steps-Tracks ttl clock (next {t} steps (tick visits now p ranges readings)) room =
    cleanup-Tracks ttl (log_of ttl steps) {s = t} visits now p ranges readings
      (Steps-IsValid (new-IsValid ttl) steps) (Steps-Tracks ttl clock steps room.0)

-- The limiter refines a log of its calls that forgets nothing: after any calls of `Allow` and rounds of
-- `cleanup` on a new limiter, `Allow` says yes exactly if the last call with the key that was let through
-- is `ttl` ago or longer, or there is none, as long as the map had room for the keys.
pub allow-passes_refines :
    (ttl clock : ℕ) {t : Timed} (steps : Steps (record { limiter = new ttl; clock = clock }) t)
    (order : Map ℕ) (since now : ℕ) (key : Str)
    → HasRoom steps
    → t.clock ≤ since
    → (allow order since now key t.limiter).1 ≡ passes ttl (log_of ttl steps) key since
allow-passes_refines ttl clock {t} steps order since now key room later =
    allow-passes ttl t.clock (log_of ttl steps) order since now key t.limiter
      (Steps-Tracks ttl clock steps room) later
