-- ===== src/RateLimit.antt =====
-- The duplicate-event limiter of internal/ratelimit/limiter.go. Times and durations are numbers of
-- nanoseconds of the monotonic clock; `time.Since(t) < d` is `now < t + d`. A call of `Allow` and
-- a round of `cleanup` hold the mutex, so each is one step.
pub mod Evict
pub mod Invariant
pub mod Sweep
pub mod Window
pub mod Flood
pub mod Refinement
pub mod Order
mod Tests
mod FloodTests
use openclaw_relay.Base.{
  ℕ, ◌+◌, ◌≤◌, ◌≡◌, ◌≢◌, Bool, true, false, ◌||◌, Option, none, some, List, [], ◌∷◌, ltb, leb,
  if◌then◌else◌, length, All,
}
use openclaw_relay.Base.Str.{Str, ◌==◌}
use openclaw_relay.Base.Map.{Map, lookup, insert, delete, Ranges}

abbrev pub max_entries : ℕ
max_entries = 10000

pub record Limiter : Type 0 where
  pub seen : Map ℕ
  pub ttl : ℕ

-- `New`, without the start of the clean-up goroutine
unfoldable pub new : ℕ → Limiter
new ttl = record { seen = []; ttl = ttl }

-- The loop of `evictOldest` over the visited entries; the pair is (oldestKey, oldestTime).
unfoldable pub scan_oldest : Map ℕ → Str × ℕ → Str × ℕ
scan_oldest [] oldest = oldest
scan_oldest ((k, v) ∷ order) (oldest_key, oldest_time) =
    scan_oldest order
      (if oldest_key == [] || ltb v oldest_time then (k, v) else (oldest_key, oldest_time))

-- `evictOldest`, where `range` visits `seen` in the order given
unfoldable pub evict_oldest : Map ℕ → Map ℕ → Map ℕ
unfolding scan_oldest
evict_oldest order seen =
    let (oldest_key, _) = scan_oldest order ([], 0) in
    if oldest_key == [] then seen else delete oldest_key seen

-- The test of the first `if` of `Allow`: the key was seen less than `ttl` ago.
unfoldable pub is_recent : Limiter → ℕ → Str → Bool
is_recent l since key = elim (lookup key l.seen) [
  | none ↦ false
  | some last ↦ ltb since (last + l.ttl)
]

-- `Allow`: `since` is the clock read by `time.Since`, `now` the one by `time.Now`, and `order` the
-- order in which an eviction visits the map.
unfoldable pub allow : Map ℕ → ℕ → ℕ → Str → Limiter → Limiter × Bool
allow order since now key l =
    if is_recent l since key
    then (l, false)
    else let seen' = insert key now l.seen in
      (
        record l {
          seen = if ltb max_entries (length seen') then evict_oldest order seen' else seen';
        },
        true,
      )

-- One visit of an entry by the loop of `cleanup`: the key, its time, and the clock at the visit.
pub record Visit : Type 0 where
  pub key : Str
  pub time : ℕ
  pub now : ℕ

unfoldable pub sweep : ℕ → List Visit → Map ℕ → Map ℕ
sweep ttl [] seen = seen
sweep ttl (v ∷ visits) seen =
    sweep ttl visits (if ltb (v.time + ttl) v.now then delete v.key seen else seen)

-- A round of `cleanup`.
unfoldable pub cleanup : List Visit → Limiter → Limiter
cleanup visits l = record l { seen = sweep l.ttl visits l.seen }

-- what the visits of a round see of the map
unfoldable pub visited : List Visit → Map ℕ
visited [] = []
visited (v ∷ visits) = (v.key, v.time) ∷ visited visits

-- The limiter with the time of its last step.
pub record Timed : Type 0 where
  pub limiter : Limiter
  pub clock : ℕ

-- The steps: calls of `Allow` by the handlers, whose keys are never empty, and rounds of `cleanup`, at times that do not decrease.
pub data Step (s : Timed) : Timed → Type 0 where
  call :
      (key : Str) (order : Map ℕ) (since now : ℕ)
      → key ≢ []
      → s.clock ≤ since
      → since ≤ now
      → Ranges order (insert key now s.limiter.seen)
      → Step s (record { limiter = (allow order since now key s.limiter).0; clock = now })
  tick :
      (visits : List Visit) (now : ℕ)
      → s.clock ≤ now
      → Ranges (visited visits) s.limiter.seen
      → All (λ v. (s.clock ≤ v.now) × (v.now ≤ now)) visits
      → Step s (record { limiter = cleanup visits s.limiter; clock = now })

pub data Steps (s : Timed) : Timed → Type 0 where
  here : Steps s s
  next : {t u : Timed} → Steps s t → Step t u → Steps s u
