-- ===== src/RateLimit/Flood.antt =====
-- What a full map does to the window: a new key pushes out the oldest one.
use openclaw_relay.Base.{
  ℕ, ◌<◌, ◌≡◌, ◌≢◌, inl, inr, true, none, some, [], arith, ltb, if◌then◌else◌, length, Bool-cases,
  tests,
}
use openclaw_relay.Base.Str.{Str, ◌==◌, eq_iff}
use openclaw_relay.Base.Map.{
  Map, lookup, insert, Ranges, lookup-insert, length-insert, insert-HasUniqueKeys,
}
use openclaw_relay.RateLimit.{Limiter, max_entries, is_recent, allow, evict_oldest}
use openclaw_relay.RateLimit.Invariant.{IsValid}
use openclaw_relay.RateLimit.Evict.{IsEviction, evict_oldest-IsEviction}

-- The key evicted from a map is the one entry that is older than all others.
key-IsEviction :
    {seen seen' : Map ℕ} (gone : IsEviction seen seen') (key : Str) (t0 : ℕ)
    → lookup key seen ≡ some t0
    → ((k : Str) (v : ℕ) → k ≢ key → lookup k seen ≡ some v → t0 < v)
    → lookup key seen' ≡ none
key-IsEviction gone key t0 held oldest = elim (Bool-cases (gone.key == key)) [
  | inl same ↦ ground (arith, gone.removed key)
  | inr other ↦ absurd (
      ground
        (arith, eq_iff gone.key key, gone.held, gone.oldest key t0 held, oldest gone.key gone.time))
]

-- A call with a key that is not in the map.
allow_new :
    (order : Map ℕ) (since now : ℕ) (key : Str) (l : Limiter)
    → lookup key l.seen ≡ none
    → allow order since now key l ≡ (
      record l {
        seen =
            if ltb max_entries (length (insert key now l.seen))
            then evict_oldest order (insert key now l.seen)
            else insert key now l.seen;
      },
      true,
    )
unfolding allow is_recent
allow_new order since now key l e = ground arith

-- In a full map a call with a new key evicts the oldest key, so that the next call with that key is
-- let through, however recent its entry was.
pub allow_after_flood-eq-true :
    (l : Limiter) (key other : Str) (t0 : ℕ) (order order' : Map ℕ) (since now since' now' : ℕ)
    → IsValid l
    → length l.seen ≡ max_entries
    → lookup key l.seen ≡ some t0
    → ((k : Str) (v : ℕ) → k ≢ key → lookup k l.seen ≡ some v → t0 < v)
    → other ≢ []
    → lookup other l.seen ≡ none
    → t0 < now
    → Ranges order (insert other now l.seen)
    → (allow order' since' now' key (allow order since now other l).0).1 ≡ true
allow_after_flood-eq-true l key other t0 order order' since now since' now' valid full held oldest
      named fresh late ranges =
    let seen' = insert other now l.seen in
    let differ : other ≢ key = λ e. ground (arith, held, fresh, e) in
    let unnamed : lookup [] seen' ≡ none =
      ground (arith, lookup-insert other [] now l.seen, eq_iff other [], valid.unnamed) in
    let over : ltb max_entries (length seen') ≡ true =
      omega (tests, length-insert other now l.seen fresh) in
    let gone =
      evict_oldest-IsEviction order seen' (insert-HasUniqueKeys other now l.seen valid.unique)
        ranges unnamed (λ e. ground (arith, over, e)) in
    let out : lookup key (evict_oldest order seen') ≡ none =
      key-IsEviction gone key t0
        (ground (arith, lookup-insert other key now l.seen, eq_iff other key))
        (λ k v ne e.
          ground (arith, lookup-insert other k now l.seen, eq_iff other k, oldest k v ne)) in
    rw (allow_new order since now other l fresh, over)
      (rw (allow_new order' since' now' key (record l { seen = evict_oldest order seen' }) out))
