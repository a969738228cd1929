-- ===== src/RateLimit/Tests.antt =====
-- Runs of the limiter, and the theorems at concrete inputs.
use openclaw_relay.Base.{
  ℕ, ◌+◌, ◌≤◌, ◌<◌, ◌≡◌, ◌≢◌, refl, true, false, List, [], ◌∷◌, arith, length,
}
use openclaw_relay.Base.Str.{Str, ◌==◌, codes}
use openclaw_relay.Base.Map.{Map, lookup, insert, delete, Ranges, HasUniqueKeys}
use openclaw_relay.RateLimit.{
  Limiter, max_entries, new, allow, evict_oldest, cleanup, Visit, Timed, Step, call, tick, here,
  next, visited, is_recent,
}
use openclaw_relay.RateLimit.Invariant.{reachable-IsValid, IsValid}
use openclaw_relay.RateLimit.Window.{allow_twice-eq-false}
use openclaw_relay.RateLimit.Refinement.{passes, log_of, allow-passes_refines}
use openclaw_relay.RateLimit.{Steps}

abbrev a : Str
a = codes "a"

abbrev b : Str
b = codes "b"

abbrev two : Map ℕ
two = (a, 5) ∷ (b, 3) ∷ []

two-HasUniqueKeys : HasUniqueKeys two
unfolding lookup codes ◌==◌
two-HasUniqueKeys = (refl, (refl, tt))

two-Ranges : Ranges two two
two-Ranges = record { once = two-HasUniqueKeys; same = λ k. refl }

evicts_b : evict_oldest two two ≡ (a, 5) ∷ []
unfolding evict_oldest delete codes ◌==◌
evicts_b = refl

abbrev limiter : Limiter
limiter = record { seen = two; ttl = 10 }

-- a call with key "c" and then one round of `cleanup`, from an empty limiter
abbrev c : Str
c = codes "c"

abbrev start : Timed
start = record { limiter = new 10; clock = 0 }

abbrev entry_c : Map ℕ
entry_c = (c, 4) ∷ []

entry_c-Ranges : Ranges entry_c entry_c
unfolding lookup
entry_c-Ranges = record { once = (refl, tt); same = λ k. refl }

abbrev called : Timed
called = record { limiter = (allow entry_c 4 4 c start.limiter).0; clock = 4 }

start_room : insert c 4 start.limiter.seen ≡ entry_c
unfolding insert new
start_room = refl

called_seen : called.limiter.seen ≡ entry_c
unfolding allow new is_recent insert lookup
called_seen = refl

c_named : c ≢ []
unfolding codes
c_named = cc

start-call : Step start called
start-call = call c entry_c 4 4 c_named (omega arith) (omega arith) (rw start_room entry_c-Ranges)

reachable-IsValid_example :
    HasUniqueKeys called.limiter.seen × (length called.limiter.seen ≤ max_entries)
reachable-IsValid_example = reachable-IsValid 10 0 called (next here start-call)

abbrev visit_c : List Visit
visit_c = record { key = c; time = 4; now = 9 } ∷ []

visit_c-Ranges : Ranges (visited visit_c) called.limiter.seen
unfolding visited
visit_c-Ranges = rw called_seen entry_c-Ranges

abbrev swept : Timed
swept = record { limiter = cleanup visit_c called.limiter; clock = 9 }

called-tick : Step called swept
called-tick = tick visit_c 9 (omega arith) visit_c-Ranges (omega arith)

new-IsValid_at_start : IsValid start.limiter
unfolding new lookup
new-IsValid_at_start = record { unique = tt; unnamed = refl; bounded = omega arith }

passed : (allow entry_c 4 4 c start.limiter).1 ≡ true
unfolding allow new is_recent lookup
passed = refl

called_room : length called.limiter.seen < max_entries
called_room = rw called_seen (omega arith)

start_empty : length start.limiter.seen < max_entries
unfolding new
start_empty = omega arith

start_ttl : 13 < 4 + start.limiter.ttl
unfolding new
start_ttl = omega arith

allow_twice-eq-false_example :
    allow [] 13 13 c (cleanup visit_c called.limiter) ≡ (cleanup visit_c called.limiter, false)
allow_twice-eq-false_example =
    allow_twice-eq-false start {t = swept} c entry_c [] 4 4 13 13 new-IsValid_at_start c_named
      (omega arith) (omega arith) (rw start_room entry_c-Ranges) start_empty passed
      (next here called-tick) (tt, called_room) (omega arith) start_ttl

abbrev swept_steps : Steps start swept
swept_steps = next (next here start-call) called-tick

allow-passes_refines_example :
    (allow [] 13 13 c swept.limiter).1 ≡ passes 10 (log_of 10 swept_steps) c 13
allow-passes_refines_example =
    allow-passes_refines 10 0 {t = swept} swept_steps [] 13 13 c ((tt, start_empty), called_room)
      (omega arith)
