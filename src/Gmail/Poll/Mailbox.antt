-- ===== src/Gmail/Poll/Mailbox.antt =====
-- A mailbox for the polls of internal/gmail/poller.go: its messages, with the history ids at which they
-- come.
use openclaw_relay.Base.{
  ◌⊎◌, ℕ, ◌≤◌, ◌<◌, ◌≡◌, inl, inr, refl, sym, ap, ◌∙◌, List, [], ◌∷◌, ◌++◌, ◌&&◌, arith, ltb, leb,
  if◌then◌else◌, length, All, append_assoc, Bool-cases,
}
use openclaw_relay.Base.Str.{Str}
use openclaw_relay.Gmail.{HistoryMessage, Mail}
use openclaw_relay.Gmail.Poller.{Poller}
use openclaw_relay.Gmail.Poller.Dedup.{HasId, IsDedup, done, drop_repeat, keep}
use openclaw_relay.Gmail.Poller.Jobs.{all_calls, rules_calls}

-- The messages that come to a mailbox, with the history ids at which they come.
abbrev pub Mailbox : Type 0
Mailbox = List (ℕ × HistoryMessage)

-- The ids grow, and no message comes twice.
abbrev pub IsOrdered : Mailbox → Type 0
IsOrdered [] = Unit
IsOrdered ((at, msg) ∷ box) =
    All (λ entry. (at ≤ entry.0) × ¬ (entry.1.id ≡ msg.id)) box × IsOrdered box

-- The messages that come after the id `lo` and up to `hi`.
abbrev pub between : ℕ → ℕ → Mailbox → List HistoryMessage
between lo hi [] = []
between lo hi ((at, msg) ∷ box) =
    if ltb lo at && leb at hi then msg ∷ between lo hi box else between lo hi box

-- What comes at or after a later id is not among the messages up to an earlier one.
between_late :
    (lo hi at : ℕ) (id : Str) (box : Mailbox)
    → hi < at
    → All (λ entry. (at ≤ entry.0) × ¬ (entry.1.id ≡ id)) box
    → between lo hi box ≡ []
between_late lo hi at id [] late h = refl
between_late lo hi at id ((i, msg) ∷ box) late h =
    ground (arith, h.0, between_late lo hi at id box late h.1)

pub between-append :
    (lo mid hi : ℕ) (box : Mailbox)
    → lo ≤ mid
    → mid ≤ hi
    → IsOrdered box
    → between lo mid box ++ between mid hi box ≡ between lo hi box
between-append lo mid hi [] p q h = refl
between-append lo mid hi ((at, msg) ∷ box) p q h = elim (Bool-cases (leb at mid)) [
  | inl early ↦ ground (arith, between-append lo mid hi box p q h.1)
  | inr late ↦
      ground
        (arith, between_late lo mid at msg.id box, late, h.0, between-append lo mid hi box p q h.1)
]

pub between-nil : (lo : ℕ) (box : Mailbox) → between lo lo box ≡ []
between-nil lo [] = refl
between-nil lo ((at, msg) ∷ box) = ground (arith, between-nil lo box)

pub length-between_le : (lo hi : ℕ) (box : Mailbox) → length (between lo hi box) ≤ length box
length-between_le lo hi [] = ground arith
length-between_le lo hi ((at, msg) ∷ box) = ground (arith, length-between_le lo hi box)

pub all_calls-append :
    (m : Mail) (p : Poller) (xs ys : List HistoryMessage)
    → all_calls m p (xs ++ ys) ≡ all_calls m p xs ++ all_calls m p ys
all_calls-append m p [] ys = refl
all_calls-append m p (x ∷ xs) ys =
    ap (λ u. rules_calls m p p.rules x ++ u) (all_calls-append m p xs ys)
    ∙ sym (append_assoc (rules_calls m p p.rules x) (all_calls m p xs) (all_calls m p ys))

abbrev pub IsNew : HistoryMessage → List HistoryMessage → Type 0
IsNew msg = All (λ other. ¬ (other.id ≡ msg.id))

abbrev pub IsDistinct : List HistoryMessage → Type 0
IsDistinct [] = Unit
IsDistinct (msg ∷ msgs) = IsNew msg msgs × IsDistinct msgs

between-IsNew :
    (lo hi at : ℕ) (msg : HistoryMessage) (box : Mailbox)
    → All (λ entry. (at ≤ entry.0) × ¬ (entry.1.id ≡ msg.id)) box
    → IsNew msg (between lo hi box)
between-IsNew lo hi at msg [] h = tt
between-IsNew lo hi at msg ((i, other) ∷ box) h =
    ground (arith, h.0.1, between-IsNew lo hi at msg box h.1)

pub between-IsDistinct :
    (lo hi : ℕ) (box : Mailbox) → IsOrdered box → IsDistinct (between lo hi box)
between-IsDistinct lo hi [] h = tt
between-IsDistinct lo hi ((at, msg) ∷ box) h =
    ground (arith, between-IsNew lo hi at msg box h.0, between-IsDistinct lo hi box h.1)

-- the messages have none of the ids of `before`
abbrev pub IsFresh : List HistoryMessage → List HistoryMessage → Type 0
IsFresh before = All (λ msg. ¬ HasId msg.id before)

IsFresh-cons :
    (before msgs : List HistoryMessage) (msg : HistoryMessage)
    → IsNew msg msgs
    → IsFresh before msgs
    → IsFresh (msg ∷ before) msgs
IsFresh-cons before [] msg new fresh = tt
IsFresh-cons before (other ∷ msgs) msg new fresh = (
  λ c. elim c [ inl same ↦ new.0 (sym same) | inr there ↦ fresh.0 there ],
  IsFresh-cons before msgs msg new.1 fresh.1,
)

pub IsDedup-IsDistinct :
    {before msgs kept : List HistoryMessage}
    → IsDedup before msgs kept
    → IsFresh before msgs
    → IsDistinct msgs
    → kept ≡ msgs
IsDedup-IsDistinct done fresh distinct = refl
IsDedup-IsDistinct (drop_repeat there more) fresh distinct = absurd (fresh.0 there)
IsDedup-IsDistinct {before} (keep {msgs} {msg} new more) fresh distinct =
    ap (λ u. msg ∷ u)
      (IsDedup-IsDistinct more (IsFresh-cons before msgs msg distinct.0 fresh.1) distinct.1)

pub dedup_distinct :
    (msgs kept : List HistoryMessage) → IsDistinct msgs → IsDedup [] msgs kept → kept ≡ msgs
dedup_distinct msgs kept distinct h = IsDedup-IsDistinct h (unseen msgs) distinct
  where
    unseen : (msgs : List HistoryMessage) → IsFresh [] msgs
    unseen [] = tt
    unseen (msg ∷ msgs) = (λ c. c, unseen msgs)

-- The message comes to the mailbox at the id.
abbrev pub Comes : ℕ → HistoryMessage → Mailbox → Type 0
Comes at msg [] = ⊥
Comes at msg ((i, other) ∷ box) = ((i ≡ at) × (other ≡ msg)) ⊎ Comes at msg box

pub between-Comes :
    (lo hi at : ℕ) (msg : HistoryMessage) (box : Mailbox)
    → Comes at msg box
    → lo < at
    → at ≤ hi
    → (before after : List HistoryMessage) × (between lo hi box ≡ before ++ msg ∷ after)
between-Comes lo hi at msg [] comes p q = absurd comes
between-Comes lo hi at msg ((i, other) ∷ box) (inl (here, same)) p q =
    ([], between lo hi box, ground (arith, here, same))
between-Comes lo hi at msg ((i, other) ∷ box) (inr later) p q =
    let (before, after, split) = between-Comes lo hi at msg box later p q in
    elim (Bool-cases (ltb lo i && leb i hi)) [
      | inl inside ↦ (other ∷ before, after, rw (inside) (ap (λ u. other ∷ u) split))
      | inr outside ↦ (before, after, rw (outside) split)
    ]
