-- ===== src/RateLimit/Invariant.antt =====
-- What holds of every limiter that the steps reach: one entry for a key, and at most `maxEntries`.
use openclaw_relay.Base.{
  ℕ, ◌+◌, ◌≤◌, ◌≡◌, ◌≢◌, ◌↔◌, inl, inr, refl, true, none, some, List, [], ◌∷◌, arith, ltb, length,
  Bool-cases, Option-cases, tests,
}
use openclaw_relay.Base.Str.{Str, eq_iff}
use openclaw_relay.Base.Map.{
  Map, lookup, insert, delete, HasUniqueKeys, Ranges, lookup-insert, lookup-delete,
  length-insert_le, insert-HasUniqueKeys, delete-HasUniqueKeys, length-delete_le,
}
use openclaw_relay.RateLimit.{
  Limiter, max_entries, new, is_recent, allow, sweep, cleanup, Visit, Timed, Step, call, tick,
  Steps, here, next,
}
use openclaw_relay.RateLimit.Evict.{evict_oldest-IsEviction, evict_oldest-HasUniqueKeys}

pub record IsValid (l : Limiter) : Type 0 where
  pub unique : HasUniqueKeys l.seen
  pub unnamed : lookup [] l.seen ≡ none
  pub bounded : length l.seen ≤ max_entries

-- `Allow` says yes exactly when the key has no entry younger than `ttl`.
pub allow-eq-true_iff :
    (order : Map ℕ) (since now : ℕ) (key : Str) (l : Limiter)
    → ((allow order since now key l).1 ≡ true)
      ↔ ((last : ℕ) → lookup key l.seen ≡ some last → last + l.ttl ≤ since)
unfolding allow is_recent
allow-eq-true_iff order since now key l = elim (Option-cases (lookup key l.seen)) [
  | inl missing ↦ (λ h last found. absurd (ground arith), λ h. ground arith)
  | inr (last, found) ↦ (λ h. λ last' found'. ground arith, λ h. ground (arith, h last found))
]

pub allow-IsValid :
    (order : Map ℕ) (since now : ℕ) (key : Str) (l : Limiter)
    → key ≢ []
    → Ranges order (insert key now l.seen)
    → IsValid l
    → IsValid (allow order since now key l).0
unfolding allow
allow-IsValid order since now key l named ranges valid =
    let seen' = insert key now l.seen in
    let unique = insert-HasUniqueKeys key now l.seen valid.unique in
    let unnamed : lookup [] seen' ≡ none =
      ground (arith, lookup-insert key [] now l.seen, eq_iff key [], valid.unnamed) in
    elim (Bool-cases (is_recent l since key)) [
      | inl recent ↦ rw recent valid
      | inr fresh ↦ elim (Bool-cases (ltb max_entries (length seen'))) [
        | inl full ↦
            let gone = evict_oldest-IsEviction order seen' unique ranges unnamed (ground arith) in
            rw (fresh, full)
              (record {
                unique = evict_oldest-HasUniqueKeys order seen' unique;
                unnamed = ground (arith, gone.removed [], unnamed);
                bounded =
                    omega (arith, gone.smaller, length-insert_le key now l.seen, valid.bounded);
              })
        | inr fits ↦
            rw (fresh, fits)
              (record { unique = unique; unnamed = unnamed; bounded = omega (tests, fits) })
      ]
    ]

sweep-HasUniqueKeys :
    (ttl : ℕ) (visits : List Visit) (seen : Map ℕ)
    → HasUniqueKeys seen
    → HasUniqueKeys (sweep ttl visits seen)
unfolding sweep
sweep-HasUniqueKeys ttl [] seen h = h
sweep-HasUniqueKeys ttl (v ∷ visits) seen h =
    sweep-HasUniqueKeys ttl visits _ (ground (arith, delete-HasUniqueKeys v.key seen h))

length-sweep_le :
    (ttl : ℕ) (visits : List Visit) (seen : Map ℕ) → length (sweep ttl visits seen) ≤ length seen
unfolding sweep
length-sweep_le ttl [] seen = omega arith
length-sweep_le ttl (v ∷ visits) seen = ground (
  arith,
  length-sweep_le ttl visits (delete v.key seen),
  length-sweep_le ttl visits seen,
  length-delete_le v.key seen,
)

-- A sweep adds no entry.
pub lookup-sweep-none :
    (ttl : ℕ) (visits : List Visit) (seen : Map ℕ) (k : Str)
    → HasUniqueKeys seen
    → lookup k seen ≡ none
    → lookup k (sweep ttl visits seen) ≡ none
unfolding sweep
lookup-sweep-none ttl [] seen k h e = e
lookup-sweep-none ttl (v ∷ visits) seen k h e =
    lookup-sweep-none ttl visits _ k (ground (arith, delete-HasUniqueKeys v.key seen h))
      (ground (arith, lookup-delete v.key k seen h))

cleanup-IsValid : (visits : List Visit) (l : Limiter) → IsValid l → IsValid (cleanup visits l)
unfolding cleanup
cleanup-IsValid visits l valid = record {
  unique = sweep-HasUniqueKeys l.ttl visits l.seen valid.unique;
  unnamed = lookup-sweep-none l.ttl visits l.seen [] valid.unique valid.unnamed;
  bounded = omega (arith, length-sweep_le l.ttl visits l.seen, valid.bounded);
}

pub Step-IsValid : {s t : Timed} → Step s t → IsValid s.limiter → IsValid t.limiter
Step-IsValid {s} (call key order since now named _ _ ranges) valid =
    allow-IsValid order since now key s.limiter named ranges valid
Step-IsValid {s} (tick visits now _ _ _) valid = cleanup-IsValid visits s.limiter valid

pub new-IsValid : (ttl : ℕ) → IsValid (new ttl)
unfolding new lookup
new-IsValid ttl = record { unique = tt; unnamed = refl; bounded = omega arith }

pub Steps-IsValid : {s t : Timed} → IsValid s.limiter → Steps s t → IsValid t.limiter
Steps-IsValid valid here = valid
Steps-IsValid valid (next steps step) = Step-IsValid step (Steps-IsValid valid steps)

-- A limiter that starts empty holds one entry for a key, and 10000 entries at most, after any
-- sequence of calls of `Allow` and rounds of `cleanup`.
pub reachable-IsValid :
    (ttl clock : ℕ) (t : Timed)
    → Steps (record { limiter = new ttl; clock = clock }) t
    → HasUniqueKeys t.limiter.seen × (length t.limiter.seen ≤ max_entries)
reachable-IsValid ttl clock t steps =
    let valid = Steps-IsValid (new-IsValid ttl) steps in (valid.unique, valid.bounded)
