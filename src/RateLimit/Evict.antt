-- ===== src/RateLimit/Evict.antt =====
-- Which entry `evictOldest` removes.
use openclaw_relay.Base.{
  ℕ, ◌+◌, ◌≤◌, ◌≡◌, ◌≢◌, ◌⊎◌, inl, inr, refl, ◌∙◌, true, false, ◌||◌, none, some, [], ◌∷◌, arith,
  ltb, if◌then◌else◌, length, Bool-cases,
}
use openclaw_relay.Base.Str.{Str, ◌==◌, eq_iff, eq_refl, eq_of_ne}
use openclaw_relay.Base.Map.{
  Map, lookup, HasUniqueKeys, Ranges, lookup-delete, length-delete, delete-HasUniqueKeys,
}
use openclaw_relay.RateLimit.{scan_oldest, evict_oldest}

-- The scan ends at an entry of the map or at its start value, and nothing is older.
record IsOldest (order : Map ℕ) (start best : Str × ℕ) : Type 0 where
  found : ((best.0 ≡ start.0) × (best.1 ≡ start.1)) ⊎ (lookup best.0 order ≡ some best.1)
  before_start : start.0 ≢ [] → best.1 ≤ start.1
  least : (k : Str) (v : ℕ) → lookup k order ≡ some v → best.1 ≤ v
  named : (start.0 ≢ []) ⊎ (order ≢ []) → best.0 ≢ []

-- One round: the scan goes on from the entry, or from the value that it had.
IsOldest-cons_new :
    (k : Str) (v : ℕ) (order : Map ℕ) (start best : Str × ℕ)
    → k ≢ []
    → lookup k order ≡ none
    → (start.0 == [] || ltb v start.1) ≡ true
    → IsOldest order (k, v) best
    → IsOldest ((k, v) ∷ order) start best
unfolding lookup
IsOldest-cons_new k v order start best ne fresh test ih = record {
  found = inr (ground (arith, eq_iff k best.0, ih.found));
  before_start = λ named. ground (arith, eq_iff start.0 [], ih.before_start ne);
  least = λ j w e. ground (arith, ih.before_start ne, ih.least j w);
  named = λ _. ih.named (inl ne);
}

IsOldest-cons_old :
    (k : Str) (v : ℕ) (order : Map ℕ) (start best : Str × ℕ)
    → lookup k order ≡ none
    → (start.0 == [] || ltb v start.1) ≡ false
    → IsOldest order start best
    → IsOldest ((k, v) ∷ order) start best
unfolding lookup
IsOldest-cons_old k v order start best fresh test ih =
    let named : start.0 ≢ [] = ground (arith, eq_iff start.0 []) in
    record {
      found = ground (arith, eq_iff k best.0, ih.found);
      before_start = ih.before_start;
      least = λ j w e. ground (arith, ih.before_start named, ih.least j w);
      named = λ _. ih.named (inl named);
    }

scan_oldest-IsOldest :
    (order : Map ℕ) (start : Str × ℕ)
    → HasUniqueKeys order
    → lookup [] order ≡ none
    → IsOldest order start (scan_oldest order start)
unfolding scan_oldest lookup
scan_oldest-IsOldest [] start h e = record {
  found = inl (refl, refl);
  before_start = λ _. omega arith;
  least = λ k v found. absurd (ground arith);
  named = λ c. elim c [ inl ne ↦ ne | inr ne ↦ absurd (ne refl) ];
}
scan_oldest-IsOldest ((k, v) ∷ order) (ok, ot) h e =
    let named : k ≢ [] = ground (arith, eq_iff k []) in
    let rest : lookup [] order ≡ none = ground (arith, eq_iff k []) in
    elim (Bool-cases (ok == [] || ltb v ot)) [
      | inl new ↦ rw new (
          IsOldest-cons_new k v order (ok, ot) _ named h.0 new
            (scan_oldest-IsOldest order (k, v) h.1 rest))
      | inr old ↦ rw old (
          IsOldest-cons_old k v order (ok, ot) _ h.0 old
            (scan_oldest-IsOldest order (ok, ot) h.1 rest))
    ]

-- What an eviction does to the map.
pub record IsEviction (seen seen' : Map ℕ) : Type 0 where
  pub key : Str
  pub time : ℕ
  pub held : lookup key seen ≡ some time
  pub oldest : (k : Str) (v : ℕ) → lookup k seen ≡ some v → time ≤ v
  pub removed : (k : Str) → lookup k seen' ≡ (if key == k then none else lookup k seen)
  pub smaller : length seen' + 1 ≡ length seen

order-ne-nil : (order seen : Map ℕ) → Ranges order seen → seen ≢ [] → order ≢ []
unfolding lookup
order-ne-nil [] [] ranges ne = absurd (ne refl)
order-ne-nil [] ((k, v) ∷ m) ranges ne = ground (arith, ranges.same k, eq_refl k)
order-ne-nil (e ∷ order) seen ranges ne = cc

-- An eviction from a map with entries, none under the key "", removes one entry, the oldest or one
-- of the oldest, whatever the order in which `range` visits the map.
pub evict_oldest-IsEviction :
    (order seen : Map ℕ)
    → HasUniqueKeys seen
    → Ranges order seen
    → lookup [] seen ≡ none
    → seen ≢ []
    → IsEviction seen (evict_oldest order seen)
unfolding evict_oldest
evict_oldest-IsEviction order seen unique ranges unnamed ne =
    let best = scan_oldest order ([], 0) in
    let scan = scan_oldest-IsOldest order ([], 0) ranges.once (ranges.same [] ∙ unnamed) in
    let named : best.0 ≢ [] = scan.named (inr (order-ne-nil order seen ranges ne)) in
    let held : lookup best.0 seen ≡ some best.1 = ground (arith, scan.found, ranges.same best.0) in
    rw (eq_of_ne best.0 [] named) (record {
      key = best.0;
      time = best.1;
      held = held;
      oldest = λ k v e. scan.least k v (ranges.same k ∙ e);
      removed = λ k. lookup-delete best.0 k seen unique;
      smaller = length-delete best.0 seen best.1 held;
    })

pub evict_oldest-HasUniqueKeys :
    (order seen : Map ℕ) → HasUniqueKeys seen → HasUniqueKeys (evict_oldest order seen)
unfolding evict_oldest
evict_oldest-HasUniqueKeys order seen unique =
    ground (arith, delete-HasUniqueKeys (scan_oldest order ([], 0)).0 seen unique)
