-- ===== src/RateLimit/Order.antt =====
-- Whether the order in which Go ranges over the map matters to the limiter.
use openclaw_relay.Base.{
  ℕ, ◌≡◌, ◌≢◌, inl, inr, refl, ap, ◌∙◌, none, some, [], arith, ltb, length, Bool-cases,
}
use openclaw_relay.Base.Str.{Str, eq_iff}
use openclaw_relay.Base.Map.{Map, lookup, insert, Ranges, lookup-insert, insert-HasUniqueKeys}
use openclaw_relay.RateLimit.{Limiter, max_entries, is_recent, allow, evict_oldest}
use openclaw_relay.RateLimit.Evict.{IsEviction, evict_oldest-IsEviction}
use openclaw_relay.RateLimit.Invariant.{IsValid}

-- No two entries have the same time.
abbrev pub HasDistinctTimes : Map ℕ → Type 0
HasDistinctTimes seen =
    (j k : Str) (v : ℕ) → lookup j seen ≡ some v → lookup k seen ≡ some v → j ≡ k

evictions_agree :
    (seen m m' : Map ℕ)
    → HasDistinctTimes seen
    → IsEviction seen m
    → IsEviction seen m'
    → (k : Str) → lookup k m ≡ lookup k m'
evictions_agree seen m m' distinct a b k =
    let same_time : a.time ≡ b.time =
      omega (arith, a.oldest b.key b.time b.held, b.oldest a.key a.time a.held) in
    let same_key : a.key ≡ b.key =
      distinct a.key b.key b.time (a.held ∙ ap some same_time) b.held in
    ground (arith, a.removed k, b.removed k, same_key)

-- Where no two entries of the map have the same time, what `Allow` answers and the entries that it leaves
-- do not depend on the order in which an eviction ranges over the map.
pub allow_order :
    (order order' : Map ℕ) (since now : ℕ) (key : Str) (l : Limiter)
    → IsValid l
    → key ≢ []
    → Ranges order (insert key now l.seen)
    → Ranges order' (insert key now l.seen)
    → HasDistinctTimes (insert key now l.seen)
    → ((allow order since now key l).1 ≡ (allow order' since now key l).1)
      × ((k : Str)
          → lookup k (allow order since now key l).0.seen
            ≡ lookup k (allow order' since now key l).0.seen)
unfolding allow
allow_order order order' since now key l valid named ranges ranges' distinct =
    let seen' = insert key now l.seen in
    let unique = insert-HasUniqueKeys key now l.seen valid.unique in
    let unnamed : lookup [] seen' ≡ none =
      ground (arith, lookup-insert key [] now l.seen, eq_iff key [], valid.unnamed) in
    elim (Bool-cases (is_recent l since key)) [
      | inl recent ↦ rw (recent) (refl, λ k. refl)
      | inr fresh ↦ elim (Bool-cases (ltb max_entries (length seen'))) [
        | inr fits ↦ rw (fresh, fits) (refl, λ k. refl)
        | inl full ↦
            let there : seen' ≢ [] = λ e. ground (arith, full, e) in
            rw (fresh, full)
              (
                refl,
                evictions_agree seen' (evict_oldest order seen') (evict_oldest order' seen')
                    distinct (evict_oldest-IsEviction order seen' unique ranges unnamed there)
                    (evict_oldest-IsEviction order' seen' unique ranges' unnamed there),
              )
      ]
    ]
