-- ===== src/Auth/Cleanup.antt =====
-- Which states of logins a round of `cleanupStates` of internal/auth/google.go removes.
use openclaw_relay.Base.{
  ℕ, ◌≡◌, inl, inr, refl, sym, ap, ◌∙◌, none, some, [], ◌∷◌, arith, Bool-cases, if◌then◌else◌,
  Option,
}
use openclaw_relay.Base.Str.{Str, ◌==◌, eq_iff}
use openclaw_relay.Base.Map.{Map, lookup, HasUniqueKeys}
use openclaw_relay.Auth.Google.{GoogleAuth, StateEntry, is_stale, fresh_states, cleanup_states}

pub fresh_states-none :
    (now : ℕ) (m : Map StateEntry) (state : Str)
    → lookup state m ≡ none
    → lookup state (fresh_states now m) ≡ none
unfolding fresh_states lookup
fresh_states-none now [] state h = refl
fresh_states-none now ((k, entry) ∷ m) state h = ground (arith, h, fresh_states-none now m state)

pub fresh_states-HasUniqueKeys :
    (now : ℕ) (m : Map StateEntry) → HasUniqueKeys m → HasUniqueKeys (fresh_states now m)
unfolding fresh_states
fresh_states-HasUniqueKeys now [] h = tt
fresh_states-HasUniqueKeys now ((k, entry) ∷ m) h =
    ground (arith, fresh_states-none now m k h.0, fresh_states-HasUniqueKeys now m h.1)

-- what a round of the clean-up makes of the entry of a state
abbrev pub unless_stale : ℕ → Option StateEntry → Option StateEntry
unless_stale now none = none
unless_stale now (some entry) = if is_stale now entry then none else some entry

lookup-fresh_states :
    (now : ℕ) (m : Map StateEntry) (state : Str)
    → HasUniqueKeys m
    → lookup state (fresh_states now m) ≡ unless_stale now (lookup state m)
unfolding fresh_states lookup
lookup-fresh_states now [] state h = refl
lookup-fresh_states now ((k, entry) ∷ m) state h = elim (Bool-cases (k == state)) [
  | inl same ↦
      let none_left : lookup state (fresh_states now m) ≡ none =
        fresh_states-none now m state
          (ap (λ j. lookup j m) (sym ((eq_iff k state).0 same)) ∙ h.0) in
      elim (Bool-cases (is_stale now entry)) [
        | inl old ↦ ground (arith, same, old, none_left)
        | inr young ↦ ground (arith, same, young)
      ]
  | inr other ↦ ground (arith, other, lookup-fresh_states now m state h.1)
]

-- A round of `cleanupStates` keeps each state that is at most ten minutes old, and removes the others.
pub cleanup_states-lookup :
    (now : ℕ) (g : GoogleAuth) (state : Str)
    → HasUniqueKeys g.state_to_email
    → lookup state (cleanup_states now g).state_to_email
      ≡ unless_stale now (lookup state g.state_to_email)
unfolding cleanup_states
cleanup_states-lookup now g state unique = lookup-fresh_states now g.state_to_email state unique
