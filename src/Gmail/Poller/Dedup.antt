-- ===== src/Gmail/Poller/Dedup.antt =====
-- The removal of duplicate messages in internal/gmail/poller.go.
use openclaw_relay.Base.{
  ◌≤◌, ◌-◌, ◌+◌, ◌≡◌, ◌⊎◌, ◌↔◌, inl, inr, refl, Bool, true, none, some, List, [], ◌∷◌, arith,
  length, Bool-cases,
}
use openclaw_relay.Base.Str.{Str, ◌==◌, eq_iff}
use openclaw_relay.Base.Map.{Map, lookup, insert, lookup-insert, length-insert}
use openclaw_relay.Gmail.{HistoryMessage}
use openclaw_relay.Gmail.Poller.{dedup}

-- The list has a message with the id.
abbrev pub HasId : Str → List HistoryMessage → Type 0
HasId id [] = ⊥
HasId id (msg ∷ msgs) = (msg.id ≡ id) ⊎ HasId id msgs

-- `kept` is what is left of `msgs` by taking away each message whose id came before, in `before` or
-- in the list.
pub data IsDedup : (before msgs kept : List HistoryMessage) → Type 0 where
  done : {before : List HistoryMessage} → IsDedup before [] []
  drop_repeat :
      {before msgs kept : List HistoryMessage} {msg : HistoryMessage}
      → HasId msg.id before
      → IsDedup before msgs kept
      → IsDedup before (msg ∷ msgs) kept
  keep :
      {before msgs kept : List HistoryMessage} {msg : HistoryMessage}
      → ¬ HasId msg.id before
      → IsDedup (msg ∷ before) msgs kept
      → IsDedup before (msg ∷ msgs) (msg ∷ kept)

-- The map records the ids of the messages.
abbrev Records : Map Bool → List HistoryMessage → Type 0
Records seen before =
    (id : Str)
    → ((lookup id seen ≡ some true) ↔ HasId id before)
      × ((lookup id seen ≡ none) ⊎ (lookup id seen ≡ some true))

Records-insert :
    (seen : Map Bool) (before : List HistoryMessage) (msg : HistoryMessage)
    → Records seen before
    → Records (insert msg.id true seen) (msg ∷ before)
Records-insert seen before msg r id = elim (Bool-cases (msg.id == id)) [
  | inl same ↦
      let stored : lookup id (insert msg.id true seen) ≡ some true =
        ground (arith, lookup-insert msg.id id true seen, same) in
      ((λ _. inl ((eq_iff msg.id id).0 same), λ _. stored), inr stored)
  | inr differ ↦
      let stored : lookup id (insert msg.id true seen) ≡ lookup id seen =
        ground (arith, lookup-insert msg.id id true seen, differ) in
      ground (arith, stored, differ, eq_iff msg.id id, (r id).0, (r id).1)
]

dedup-IsDedup_from :
    (seen : Map Bool) (before msgs : List HistoryMessage)
    → Records seen before
    → IsDedup before msgs (dedup seen msgs).1
unfolding dedup
dedup-IsDedup_from seen before [] r = done
dedup-IsDedup_from seen before (msg ∷ msgs) r = elim ((r msg.id).1) [
  | inl fresh ↦ rw (fresh) (
      keep (λ h. absurd (ground (arith, fresh, ((r msg.id).0.1 h))))
        (dedup-IsDedup_from (insert msg.id true seen) (msg ∷ before) msgs
          (Records-insert seen before msg r)))
  | inr repeated ↦
      rw (repeated) (drop_repeat ((r msg.id).0.0 repeated) (dedup-IsDedup_from seen before msgs r))
]

-- What the poller keeps of a list of messages are the messages whose id no message before them has, in
-- their order.
pub dedup-IsDedup : (msgs : List HistoryMessage) → IsDedup [] msgs (dedup [] msgs).1
dedup-IsDedup msgs = dedup-IsDedup_from [] [] msgs (unfold lookup in λ id. ground arith)

fresh_length :
    (msgs : List HistoryMessage) (seen : Map Bool)
    → ((id : Str) → (lookup id seen ≡ none) ⊎ (lookup id seen ≡ some true))
    → length (dedup seen msgs).0 ≡ length seen + length (dedup seen msgs).1
unfolding dedup
fresh_length [] seen r = ground arith
fresh_length (msg ∷ msgs) seen r = elim (r msg.id) [
  | inl fresh ↦ rw (fresh) (
      ground (
        arith,
        length-insert msg.id true seen fresh,
        fresh_length msgs (insert msg.id true seen)
            (λ id. ground (arith, lookup-insert msg.id id true seen, r id)),
      ))
  | inr repeated ↦ rw (repeated) (fresh_length msgs seen r)
]

-- The map of the ids seen has as many entries as there are messages kept, so the number of messages
-- remaining that the poller logs at a shutdown, the difference of the two, is 0 whatever remains.
pub length-dedup :
    (msgs : List HistoryMessage) → length (dedup [] msgs).1 - length (dedup [] msgs).0 ≡ 0
length-dedup msgs = ground (arith, fresh_length msgs [] (unfold lookup in λ id. inl refl))

pub length-dedup_le :
    (seen : Map Bool) (msgs : List HistoryMessage) → length (dedup seen msgs).1 ≤ length msgs
unfolding dedup
length-dedup_le seen [] = ground arith
length-dedup_le seen (msg ∷ msgs) =
    ground (arith, length-dedup_le seen msgs, length-dedup_le (insert msg.id true seen) msgs)
