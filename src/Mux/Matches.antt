-- ===== src/Mux/Matches.antt =====
-- What the patterns of http.ServeMux say of a request that reaches a handler.
use mathlib.Core.Path.{subst}
use openclaw_relay.Base.{
  ◌↔◌, ◌≡◌, ◌⊎◌, inl, inr, true, not, Option, none, some, [], ◌∷◌, arith, length, ltb,
  if◌then◌else◌, Bool-cases, All,
}
use openclaw_relay.Base.Str.{Str, ◌==◌, eq_iff, has_prefix}
use openclaw_relay.Base.Map.{Map}
use openclaw_relay.Http.{Request}
use openclaw_relay.Mux.{
  ends_in_slash, matches, best_match, longer, lacks_slash, found, moved, handler_of, route,
}

-- The pattern stands for the path: it is the path, or it ends in a slash and begins it.
abbrev pub Matches : Str → Str → Type 0
Matches pattern path =
    (pattern ≡ path) ⊎ ((ends_in_slash pattern ≡ true) × (has_prefix path pattern ≡ true))

module _ {V : Type 0} (Q : Str → V → Type 0) (path : Str) where
  -- what is known of the pattern that is found
  abbrev Good : Option (Str × V) → Type 0
  Good none = Unit
  Good (some (pattern, v)) = Q pattern v × (matches pattern path ≡ true)

  longer-Good :
      (pattern : Str) (v : V) (rest : Option (Str × V))
      → Q pattern v
      → matches pattern path ≡ true
      → Good rest
      → Good (longer (pattern, v) rest)
  longer-Good pattern v none q fits h = (q, fits)
  longer-Good pattern v (some (other, w)) q fits h =
      elim (Bool-cases (ltb (length other) (length pattern))) [
        | inl more ↦ rw (more) (q, fits)
        | inr less ↦ rw (less) h
      ]

  best_match-Good :
      (patterns : Map V)
      → All (λ entry. Q entry.0 entry.1) patterns
      → Good (best_match patterns path)
  unfolding best_match
  best_match-Good [] h = tt
  best_match-Good ((pattern, v) ∷ patterns) h = elim (Bool-cases (matches pattern path)) [
    | inl fits ↦
        rw (fits)
          (longer-Good pattern v (best_match patterns path) h.0 fits (best_match-Good patterns h.1))
    | inr other ↦ rw (other) (best_match-Good patterns h.1)
  ]

  found-Good :
      (best : Option (Str × V)) (v : V)
      → Good best
      → handler_of best ≡ found v
      → (pattern : Str) × Q pattern v × (matches pattern path ≡ true)
  found-Good none v h e = absurd (ground (arith, e))
  found-Good (some (pattern, w)) v h e =
      (pattern, subst (Q pattern) (found-injective w v e) h.0, h.1)
    where
      found-injective : (a b : V) → found a ≡ found b → a ≡ b
      found-injective a b e = cc

matches_iff : (pattern path : Str) → (matches pattern path ≡ true) ↔ Matches pattern path
unfolding matches
matches_iff pattern path = ground (arith, eq_iff pattern path)

settled :
    {V : Type 0} (patterns : Map V) (given path to : Str) (v : V)
    → (if lacks_slash patterns path
        then moved to
        else if not (path == given)
        then moved path
        else handler_of (best_match patterns path))
      ≡ found v
    → handler_of (best_match patterns given) ≡ found v
settled patterns given path to v e = elim (Bool-cases (lacks_slash patterns path)) [
  | inl lacking ↦ absurd (ground (arith, e, lacking))
  | inr complete ↦ elim (Bool-cases (path == given)) [
    | inl same ↦
        subst (λ q. handler_of (best_match patterns q) ≡ found v) ((eq_iff path given).0 same)
          (rw (complete, same) at e)
    | inr other ↦ absurd (ground (arith, e, complete, other))
  ]
]

route_best :
    {V : Type 0} (patterns : Map V) (r : Request) (v : V)
    → route patterns r ≡ found v
    → handler_of (best_match patterns r.path) ≡ found v
unfolding route
route_best patterns r v e = settled patterns r.path _ _ v e

-- A request that reaches a handler does so by one of its patterns, and not by way of a cleaned path.
pub route-Matches :
    {V : Type 0} (Q : Str → V → Type 0) (patterns : Map V) (r : Request) (v : V)
    → All (λ entry. Q entry.0 entry.1) patterns
    → route patterns r ≡ found v
    → (pattern : Str) × Q pattern v × Matches pattern r.path
route-Matches Q patterns r v h e =
    let (pattern, q, fits) =
      found-Good Q r.path (best_match patterns r.path) v (best_match-Good Q r.path patterns h)
        (route_best patterns r v e) in
    (pattern, q, (matches_iff pattern r.path).0 fits)
