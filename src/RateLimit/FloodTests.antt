-- ===== src/RateLimit/FloodTests.antt =====
-- A full limiter, and the theorem on evictions at it.
use openclaw_relay.Base.{
  ℕ, zero, suc, ◌+◌, ◌≤◌, ◌<◌, ◌/◌, ◌%◌, ◌≡◌, ◌≢◌, refl, true, none, some, [], ◌∷◌, arith, length,
}
use openclaw_relay.Base.Str.{eq_of_ne, Str, eq_iff}
use openclaw_relay.Base.Map.{
  Map, lookup, insert, Ranges, HasUniqueKeys, insert-HasUniqueKeys, lookup-insert,
}
use openclaw_relay.RateLimit.{Limiter, max_entries, allow}
use openclaw_relay.RateLimit.Invariant.{IsValid}
use openclaw_relay.RateLimit.Order.{HasDistinctTimes, allow_order}
use openclaw_relay.RateLimit.Flood.{allow_after_flood-eq-true}

-- keys of two bytes
key_of : ℕ → Str
key_of n = (n / 100 + 1) ∷ (n % 100) ∷ []

abbrev old : Str
old = b'o' ∷ []

abbrev young : Str
young = b'y' ∷ []

-- one old entry and `n` later ones
fill : ℕ → Map ℕ
fill zero = (old, 0) ∷ []
fill (suc n) = (key_of n, suc n) ∷ fill n

key_of-injective : (m n : ℕ) → key_of m ≡ key_of n → m ≡ n
unfolding key_of
key_of-injective m n e = ground arith

length-fill : (n : ℕ) → length (fill n) ≡ n + 1
unfolding fill
length-fill zero = omega arith
length-fill (suc n) = omega (arith, length-fill n)

lookup-fill-old : (n : ℕ) → lookup old (fill n) ≡ some 0
unfolding fill lookup key_of
lookup-fill-old zero = ground (arith, eq_iff old old)
lookup-fill-old (suc n) = ground (arith, eq_iff (key_of n) old, lookup-fill-old n)

lookup-fill-young : (n : ℕ) → lookup young (fill n) ≡ none
unfolding fill lookup key_of
lookup-fill-young zero = ground (arith, eq_iff old young)
lookup-fill-young (suc n) = ground (arith, eq_iff (key_of n) young, lookup-fill-young n)

lookup-fill-nil : (n : ℕ) → lookup [] (fill n) ≡ none
unfolding fill lookup key_of
lookup-fill-nil zero = ground (arith, eq_iff old [])
lookup-fill-nil (suc n) = ground (arith, eq_iff (key_of n) [], lookup-fill-nil n)

old-ne-key_of : (m : ℕ) → old ≢ key_of m
unfolding key_of
old-ne-key_of m e = ground arith

lookup-fill-key_of : (m n : ℕ) → n ≤ m → lookup (key_of m) (fill n) ≡ none
unfolding fill lookup
lookup-fill-key_of m zero h = rw (eq_of_ne old (key_of m) (old-ne-key_of m))
lookup-fill-key_of m (suc n) h =
    ground (arith, eq_iff (key_of n) (key_of m), key_of-injective n m, lookup-fill-key_of m n)

fill-HasUniqueKeys : (n : ℕ) → HasUniqueKeys (fill n)
unfolding fill
fill-HasUniqueKeys zero = (unfold lookup in refl, tt)
fill-HasUniqueKeys (suc n) = (lookup-fill-key_of n n (omega arith), fill-HasUniqueKeys n)

old_is_oldest : (n : ℕ) (k : Str) (v : ℕ) → k ≢ old → lookup k (fill n) ≡ some v → 0 < v
unfolding fill lookup
old_is_oldest zero k v ne e = ground (arith, eq_iff old k)
old_is_oldest (suc n) k v ne e = ground (arith, eq_iff (key_of n) k, old_is_oldest n k v ne)

full : ℕ → Limiter
full n = record { seen = fill n; ttl = 20000 }

full-IsValid : (n : ℕ) → n < max_entries → IsValid (full n)
unfolding full
full-IsValid n h = record {
  unique = fill-HasUniqueKeys n;
  unnamed = lookup-fill-nil n;
  bounded = omega (arith, length-fill n);
}

-- the map that the eviction visits, in its own order
order : ℕ → Map ℕ
order n = insert young (suc n) (fill n)

order-Ranges : (n : ℕ) → Ranges (order n) (insert young (suc n) (full n).seen)
unfolding order full
order-Ranges n = record {
  once = insert-HasUniqueKeys young (suc n) (fill n) (fill-HasUniqueKeys n);
  same = λ k. refl;
}

-- another order, with the new entry first
front : ℕ → Map ℕ
front n = (young, suc n) ∷ fill n

front-Ranges : (n : ℕ) → Ranges (front n) (insert young (suc n) (full n).seen)
unfolding front full lookup
front-Ranges n = record {
  once = (lookup-fill-young n, fill-HasUniqueKeys n);
  same = λ k. ground (arith, lookup-insert young k (suc n) (fill n));
}

full-length : (n : ℕ) → length (full n).seen ≡ n + 1
unfolding full
full-length n = length-fill n

full-old : (n : ℕ) → lookup old (full n).seen ≡ some 0
unfolding full
full-old n = lookup-fill-old n

full-oldest : (n : ℕ) (k : Str) (v : ℕ) → k ≢ old → lookup k (full n).seen ≡ some v → 0 < v
unfolding full
full-oldest n = old_is_oldest n

full-young : (n : ℕ) → lookup young (full n).seen ≡ none
unfolding full
full-young n = lookup-fill-young n

-- The entry of "o" is 10001 old where `ttl` is 20000, and the call is let through.
allow_after_flood-eq-true_example :
    (allow [] 10001 10001 old (allow (order 9999) 10000 10000 young (full 9999)).0).1 ≡ true
allow_after_flood-eq-true_example =
    allow_after_flood-eq-true (full 9999) old young 0 (order 9999) [] 10000 10000 10001 10001
      (full-IsValid 9999 (omega arith)) (full-length 9999) (full-old 9999) (full-oldest 9999) (cc)
      (full-young 9999) (omega arith) (order-Ranges 9999)

fill_le : (n : ℕ) (k : Str) (v : ℕ) → lookup k (fill n) ≡ some v → v ≤ n
unfolding fill lookup
fill_le zero k v e = ground (arith, e)
fill_le (suc n) k v e = ground (arith, e, fill_le n k v)

fill_distinct :
    (n : ℕ) (j k : Str) (v : ℕ) → lookup j (fill n) ≡ some v → lookup k (fill n) ≡ some v → j ≡ k
unfolding fill lookup
fill_distinct zero j k v e f = ground (arith, e, f, eq_iff old j, eq_iff old k)
fill_distinct (suc n) j k v e f = ground (
  arith,
  e,
  f,
  eq_iff (key_of n) j,
  eq_iff (key_of n) k,
  fill_le n j v,
  fill_le n k v,
  fill_distinct n j k v,
)

order-HasDistinctTimes : (n : ℕ) → HasDistinctTimes (insert young (suc n) (full n).seen)
unfolding full
order-HasDistinctTimes n j k v e f = ground (
  arith,
  e,
  f,
  lookup-insert young j (suc n) (fill n),
  lookup-insert young k (suc n) (fill n),
  eq_iff young j,
  eq_iff young k,
  fill_le n j v,
  fill_le n k v,
  fill_distinct n j k v,
)

-- the same eviction in another order
allow_order_example :
    ((allow (order 9999) 10000 10000 young (full 9999)).1
      ≡ (allow (front 9999) 10000 10000 young (full 9999)).1)
    × ((k : Str)
        → lookup k (allow (order 9999) 10000 10000 young (full 9999)).0.seen
          ≡ lookup k (allow (front 9999) 10000 10000 young (full 9999)).0.seen)
allow_order_example =
    allow_order (order 9999) (front 9999) 10000 10000 young (full 9999)
      (full-IsValid 9999 (omega arith)) (cc) (order-Ranges 9999) (front-Ranges 9999)
      (order-HasDistinctTimes 9999)
