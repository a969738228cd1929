-- ===== src/Config/Lists.antt =====
-- `ListIDToName` under every order in which Go may range over the lists.
use openclaw_relay.Base.{◌≡◌, ◌≢◌, ◌⊎◌, inl, inr, refl, sym, ◌∙◌, some, [], ◌∷◌, arith, Bool-cases}
use openclaw_relay.Base.Str.{Str, ◌==◌, eq_iff, eq_refl}
use openclaw_relay.Base.Map.{Map, lookup, HasUniqueKeys, Ranges}
use openclaw_relay.Config.{list_id_to_name}

-- The ID belongs to no list and the result is "", or it belongs to the list of the result.
abbrev pub IsNameOf : Map Str → Str → Str → Type 0
IsNameOf lists id name =
    ((name ≡ []) × ((other : Str) → lookup other lists ≢ some id)) ⊎ (lookup name lists ≡ some id)

IsNameOf-list_id_to_name :
    (order : Map Str) (id : Str)
    → HasUniqueKeys order
    → IsNameOf order id (list_id_to_name order id)
unfolding list_id_to_name lookup
IsNameOf-list_id_to_name [] id h = inl (refl, λ other e. ground arith)
IsNameOf-list_id_to_name ((name, lid) ∷ order) id h = elim (Bool-cases (lid == id)) [
  | inl hit ↦ inr (ground (arith, eq_iff lid id, eq_refl name))
  | inr miss ↦ elim (IsNameOf-list_id_to_name order id h.1) [
    | inl (empty, nowhere) ↦
        inl
          (ground arith, λ other e. ground (arith, nowhere other, eq_iff lid id, eq_iff name other))
    | inr found ↦ inr (ground (arith, eq_iff name (list_id_to_name order id)))
  ]
]

-- `ListIDToName` returns "" if the ID is that of no list, and otherwise the name of a list with
-- that ID, in whatever order `range` visits the lists.
pub list_id_to_name-IsNameOf :
    (order lists : Map Str) (id : Str)
    → Ranges order lists
    → IsNameOf lists id (list_id_to_name order id)
list_id_to_name-IsNameOf order lists id ranges =
    elim (IsNameOf-list_id_to_name order id ranges.once) [
      | inl (empty, nowhere) ↦ inl (empty, λ other e. nowhere other (ranges.same other ∙ e))
      | inr found ↦ inr (sym (ranges.same (list_id_to_name order id)) ∙ found)
    ]

-- No two lists have one ID.
abbrev pub HasDistinctIds : Map Str → Type 0
HasDistinctIds lists =
    (name other id : Str)
    → lookup name lists ≡ some id
    → lookup other lists ≡ some id
    → name ≡ other

-- If no two lists have one ID, the result does not depend on the order in which `range` visits them.
pub list_id_to_name_order :
    (order order' lists : Map Str) (id : Str)
    → Ranges order lists
    → Ranges order' lists
    → HasDistinctIds lists
    → list_id_to_name order id ≡ list_id_to_name order' id
list_id_to_name_order order order' lists id ranges ranges' distinct =
    elim (list_id_to_name-IsNameOf order lists id ranges) [
      | inl (empty, nowhere) ↦ elim (list_id_to_name-IsNameOf order' lists id ranges') [
        | inl (empty', _) ↦ empty ∙ sym empty'
        | inr found' ↦ absurd (nowhere _ found')
      ]
      | inr found ↦ elim (list_id_to_name-IsNameOf order' lists id ranges') [
        | inl (_, nowhere') ↦ absurd (nowhere' _ found)
        | inr found' ↦ distinct _ _ id found found'
      ]
    ]
