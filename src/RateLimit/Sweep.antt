-- ===== src/RateLimit/Sweep.antt =====
-- Which entries a round of `cleanup` removes.
use openclaw_relay.Base.{
  ℕ, ◌+◌, ◌≤◌, ◌<◌, ◌≡◌, ◌⊎◌, inl, inr, ◌∙◌, none, some, List, [], ◌∷◌, arith, ltb, if◌then◌else◌,
  Bool-cases, All,
}
use openclaw_relay.Base.Str.{Str, ◌==◌, eq_iff}
use openclaw_relay.Base.Map.{
  Map, lookup, delete, HasUniqueKeys, Ranges, lookup-delete, delete-HasUniqueKeys,
}
use openclaw_relay.RateLimit.{Limiter, sweep, cleanup, visited, Visit}
use openclaw_relay.RateLimit.Invariant.{lookup-sweep-none}

-- the map behind one visit
abbrev after_visit : ℕ → Visit → Map ℕ → Map ℕ
after_visit ttl v seen = if ltb (v.time + ttl) v.now then delete v.key seen else seen

after_visit-HasUniqueKeys :
    (ttl : ℕ) (v : Visit) (seen : Map ℕ)
    → HasUniqueKeys seen
    → HasUniqueKeys (after_visit ttl v seen)
after_visit-HasUniqueKeys ttl v seen h = ground (arith, delete-HasUniqueKeys v.key seen h)

module _ (ttl : ℕ) (k : Str) (last : ℕ) where
  -- An entry that is not expired at any visit is kept.
  sweep_keeps :
      (hi : ℕ) (visits : List Visit) (seen : Map ℕ)
      → HasUniqueKeys seen
      → HasUniqueKeys (visited visits)
      → (lookup k (visited visits) ≡ none) ⊎ (lookup k (visited visits) ≡ some last)
      → All (λ v. v.now ≤ hi) visits
      → hi ≤ last + ttl
      → lookup k seen ≡ some last
      → lookup k (sweep ttl visits seen) ≡ some last
  unfolding sweep visited lookup
  sweep_keeps hi [] seen _ _ _ _ _ e = e
  sweep_keeps hi (v ∷ visits) seen unique once view readings alive e =
      sweep_keeps hi visits (after_visit ttl v seen) (after_visit-HasUniqueKeys ttl v seen unique)
        once.1 (ground (arith, eq_iff v.key k)) readings.1 alive
        (ground (arith, eq_iff v.key k, lookup-delete v.key k seen unique))

  -- An entry that is expired at its visit is removed.
  sweep_drops :
      (lo : ℕ) (visits : List Visit) (seen : Map ℕ)
      → HasUniqueKeys seen
      → lookup k (visited visits) ≡ some last
      → All (λ v. lo ≤ v.now) visits
      → last + ttl < lo
      → lookup k (sweep ttl visits seen) ≡ none
  unfolding sweep visited lookup
  sweep_drops lo [] seen unique view readings dead = absurd (ground arith)
  sweep_drops lo (v ∷ visits) seen unique view readings dead = elim (Bool-cases (v.key == k)) [
    | inl same ↦
        lookup-sweep-none ttl visits (after_visit ttl v seen) k
          (after_visit-HasUniqueKeys ttl v seen unique)
          (ground (arith, lookup-delete v.key k seen unique))
    | inr other ↦
        sweep_drops lo visits (after_visit ttl v seen) (after_visit-HasUniqueKeys ttl v seen unique)
          (ground arith) readings.1 dead
  ]

-- A round of `cleanup` whose clock readings lie between `lo` and `hi`, in any order of visits: it
-- keeps each entry that is at most `ttl` old at `hi`, removes each that is older than `ttl` at
-- `lo`, and adds none.
pub cleanup-lookup :
    (visits : List Visit) (l : Limiter) (lo hi : ℕ) (k : Str)
    → HasUniqueKeys l.seen
    → Ranges (visited visits) l.seen
    → All (λ v. (lo ≤ v.now) × (v.now ≤ hi)) visits
    → ((last : ℕ)
        → lookup k l.seen ≡ some last
        → hi ≤ last + l.ttl
        → lookup k (cleanup visits l).seen ≡ some last)
      × ((last : ℕ)
          → lookup k l.seen ≡ some last
          → last + l.ttl < lo
          → lookup k (cleanup visits l).seen ≡ none)
      × (lookup k l.seen ≡ none → lookup k (cleanup visits l).seen ≡ none)
unfolding cleanup
cleanup-lookup visits l lo hi k unique ranges readings = (
  λ last e alive.
      sweep_keeps l.ttl k last hi visits l.seen unique ranges.once (inr (ranges.same k ∙ e))
        (All-upper visits readings) alive e,
  λ last e dead.
      sweep_drops l.ttl k last lo visits l.seen unique (ranges.same k ∙ e)
        (All-lower visits readings) dead,
  λ e. lookup-sweep-none l.ttl visits l.seen k unique e,
)
  where
    All-upper :
        (vs : List Visit) → All (λ v. (lo ≤ v.now) × (v.now ≤ hi)) vs → All (λ v. v.now ≤ hi) vs
    All-upper [] h = tt
    All-upper (v ∷ vs) h = (h.0.1, All-upper vs h.1)

    All-lower :
        (vs : List Visit) → All (λ v. (lo ≤ v.now) × (v.now ≤ hi)) vs → All (λ v. lo ≤ v.now) vs
    All-lower [] h = tt
    All-lower (v ∷ vs) h = (h.0.0, All-lower vs h.1)
