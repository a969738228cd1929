-- ===== src/Gmail/Poll/History.antt =====
-- What a poll of internal/gmail/poller.go makes of the client's answer about the history.
use native.Mathlib.Nat.{mul-le-mul_right}
use openclaw_relay.Base.{
  ℕ, suc, ◌*◌, ◌<◌, ◌≡◌, ◌≢◌, ◌⊎◌, inl, inr, refl, ap, ◌∙◌, true, some, List, [], ◌++◌, arith, ltb,
  length, Bool-cases,
}
use openclaw_relay.Base.Str.{Str, codes}
use openclaw_relay.Gateway.{Call}
use openclaw_relay.Gmail.{HistoryMessage, Mail, OrError}
use openclaw_relay.Gmail.Poller.{Poller, dedup}
use openclaw_relay.Gmail.Poller.Dedup.{IsDedup, dedup-IsDedup, length-dedup_le}
use openclaw_relay.Gmail.Poller.Rules.{StandsIn, contains_iff}
use openclaw_relay.Gmail.Poller.Jobs.{all_calls, process-all_calls, process_interrupted}
use openclaw_relay.Gmail.Poll.{Surroundings, Polled, poll, recover, handle_messages, is_expired}

pub OrError-cases :
    {A : Type 0} (r : OrError A) → ((err : Str) × (r ≡ inl err)) ⊎ ((a : A) × (r ≡ inr a))
OrError-cases (inl err) = inl (err, refl)
OrError-cases (inr a) = inr (a, refl)

module _ (m : Mail) (p : Poller) (w : Surroundings) (n : ℕ) where
  pub poll_of_history :
      (msgs : List HistoryMessage) (new : ℕ)
      → w.client.get_history (suc n) ≡ inr (msgs, new)
      → poll m p w (some (suc n)) ≡ handle_messages m p w (suc n) msgs new
  unfolding poll
  poll_of_history msgs new h = rw (h, poll) refl

  pub poll_of_error :
      (err : Str)
      → w.client.get_history (suc n) ≡ inl err
      → poll m p w (some (suc n)) ≡ recover m p w (suc n) err
  unfolding poll
  poll_of_error err h = rw (h, poll) refl

  -- If the history is read from the saved id and the context stays open for all messages and rules, the
  -- poll makes the calls of all
  -- rules for the messages read, in their order, where a message that repeats the id of an earlier one
  -- counts for nothing.
  pub poll-all_calls :
      (msgs : List HistoryMessage) (new : ℕ)
      → w.client.get_history (suc n) ≡ inr (msgs, new)
      → length msgs * suc (length p.rules) < w.ctx
      → (kept : List HistoryMessage) × IsDedup [] msgs kept
        × ((poll m p w (some (suc n))).calls ≡ all_calls m p kept)
  unfolding handle_messages
  poll-all_calls msgs new h enough =
      let kept = (dedup [] msgs).1 in
      let fits : length kept * suc (length p.rules) < w.ctx =
        ground (arith, enough, mul-le-mul_right (suc (length p.rules)) (length-dedup_le [] msgs)) in
      (
        kept,
        dedup-IsDedup msgs,
        rw (poll_of_history msgs new h) (process-all_calls m p w.ctx kept fits),
      )

  -- If the history is read from the saved id, a poll makes the first of the calls of all rules for the
  -- messages read, without repeats, and no other, wherever the context interrupts it.
  pub poll_interrupted :
      (msgs : List HistoryMessage) (new : ℕ)
      → w.client.get_history (suc n) ≡ inr (msgs, new)
      → (kept : List HistoryMessage) × (rest : List Call) × IsDedup [] msgs kept
        × (all_calls m p kept ≡ (poll m p w (some (suc n))).calls ++ rest)
  unfolding handle_messages
  poll_interrupted msgs new h =
      let kept = (dedup [] msgs).1 in
      let (rest, split) = process_interrupted m p w.ctx kept in
      (kept, rest, dedup-IsDedup msgs, rw (poll_of_history msgs new h) split)

  -- Why a poll saves another history id than the one it read: the history has a later one, or the client
  -- says that the id has expired and gives the current one.
  pub data IsMove : Type 0 where
    advanced :
        (msgs : List HistoryMessage) (new : ℕ)
        → w.client.get_history (suc n) ≡ inr (msgs, new)
        → suc n < new
        → (poll m p w (some (suc n))).file ≡ w.write new (some (suc n))
        → IsMove
    reset :
        (err : Str) (hid : ℕ)
        → w.client.get_history (suc n) ≡ inl err
        → StandsIn (codes "404") err ⊎ StandsIn (codes "notFound") err
        → w.client.get_current_history_id ≡ inr hid
        → (poll m p w (some (suc n))).file ≡ w.write hid (some (suc n))
        → IsMove

  expired_text :
      (err : Str)
      → is_expired err ≡ true
      → StandsIn (codes "404") err ⊎ StandsIn (codes "notFound") err
  unfolding is_expired
  expired_text err h =
      ground (arith, h, contains_iff err (codes "404"), contains_iff err (codes "notFound"))

  moved_by_history :
      (msgs : List HistoryMessage) (new : ℕ)
      → w.client.get_history (suc n) ≡ inr (msgs, new)
      → (poll m p w (some (suc n))).file ≢ some (suc n)
      → IsMove
  unfolding handle_messages
  moved_by_history msgs new h moved =
      let file = ap Polled.file (poll_of_history msgs new h) in
      elim (Bool-cases (ltb (suc n) new)) [
        | inl later ↦ advanced msgs new h (ground (arith, later)) (rw (later) at file)
        | inr not_later ↦ absurd (moved (rw (not_later) at file))
      ]

  reset_fails :
      (err e : Str)
      → is_expired err ≡ true
      → w.client.get_current_history_id ≡ inl e
      → (recover m p w (suc n) err).file ≡ some (suc n)
  unfolding recover
  reset_fails err e expired h = rw (expired, h) refl

  reset_saves :
      (err : Str) (hid : ℕ)
      → is_expired err ≡ true
      → w.client.get_current_history_id ≡ inr hid
      → (recover m p w (suc n) err).file ≡ w.write hid (some (suc n))
  unfolding recover
  reset_saves err hid expired h = rw (expired, h) refl

  moved_by_error :
      (err : Str)
      → w.client.get_history (suc n) ≡ inl err
      → (poll m p w (some (suc n))).file ≢ some (suc n)
      → IsMove
  unfolding recover
  moved_by_error err h moved =
      let file = ap Polled.file (poll_of_error err h) in
      elim (Bool-cases (is_expired err)) [
        | inl expired ↦ elim (OrError-cases w.client.get_current_history_id) [
          | inl (e, failed) ↦ absurd (moved (file ∙ reset_fails err e expired failed))
          | inr (hid, got) ↦
              reset err hid h (expired_text err expired) got
                (file ∙ reset_saves err hid expired got)
        ]
        | inr other ↦ absurd (moved (rw (other) at file))
      ]

  -- A poll that leaves something else in the state file than the history id that it read there has saved
  -- the later id that the history came with, or the current id after the answer that the old one expired.
  pub poll-IsMove : (poll m p w (some (suc n))).file ≢ some (suc n) → IsMove
  poll-IsMove moved = elim (OrError-cases (w.client.get_history (suc n))) [
    | inl (err, failed) ↦ moved_by_error err failed moved
    | inr ((msgs, new), got) ↦ moved_by_history msgs new got moved
  ]
