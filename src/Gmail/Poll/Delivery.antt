-- ===== src/Gmail/Poll/Delivery.antt =====
-- What the polls of internal/gmail/poller.go make of the messages that come to a mailbox.
use native.Mathlib.Nat.{mul-le-mul_right}
use openclaw_relay.Base.{
  ℕ, zero, suc, ◌*◌, ◌≤◌, ◌<◌, ◌≡◌, inl, inr, refl, sym, ap, ◌∙◌, false, Option, none, some, List,
  [], ◌∷◌, ◌++◌, arith, length,
}
use openclaw_relay.Base.Str.{Str, codes}
use openclaw_relay.Gateway.{Call}
use openclaw_relay.Config.{GmailAuthAlertConfig}
use openclaw_relay.Gmail.{HistoryMessage, Mail}
use openclaw_relay.Gmail.Poller.{Poller}
use openclaw_relay.Gmail.Poller.Jobs.{all_calls, rules_calls}
use openclaw_relay.Gmail.Poll.{
  Surroundings, Polled, poll, start, recover, handle_messages, is_expired, handle_auth_error,
  initialize,
}
use openclaw_relay.Gmail.Poller.Rules.{StandsIn, contains_iff}
use openclaw_relay.Gmail.Poll.Alerts.{IsDue, IsDue-or_idle}
use openclaw_relay.Gmail.Poll.History.{poll-all_calls, poll_of_history, poll_of_error}
use openclaw_relay.Gmail.Poll.Mailbox.{
  Comes, between-Comes, Mailbox, IsOrdered, between, dedup_distinct, between-IsDistinct,
  length-between_le, between-append, between-nil, all_calls-append,
}
use openclaw_relay.Gmail.Poll.Loop.{followed, polls, run}

module _ (m : Mail) (p : Poller) (box : Mailbox) where
  -- Gmail answers with the messages up to the id `top`, a save works, and the context stays open.
  pub record Answers (w : Surroundings) (top : ℕ) : Type 0 where
    pub history : (id : ℕ) → w.client.get_history id ≡ inr (between id top box, top)
    pub saves : (id : ℕ) (file : Option ℕ) → w.write id file ≡ some id
    pub stays_open : length box * suc (length p.rules) < w.ctx

  -- The request fails, not because the id has expired, as its text has neither 404 nor notFound, and no
  -- alert about it is due.
  pub record Fails (w : Surroundings) (err : Str) : Type 0 where
    pub history : (id : ℕ) → w.client.get_history id ≡ inl err
    pub found : ¬ StandsIn (codes "404") err
    pub known : ¬ StandsIn (codes "notFound") err
    pub no_alert : (cfg : GmailAuthAlertConfig) → ¬ IsDue p w err cfg

  -- A sequence of polls, from the saved id to that of the last answer. The ids of the answers do not go
  -- back.
  pub data Rounds : ℕ → List Surroundings → ℕ → Type 0 where
    stop : {lo : ℕ} → Rounds lo [] lo
    answered :
        {lo top hi : ℕ} {w : Surroundings} {ws : List Surroundings}
        → lo ≤ top
        → Answers w top
        → Rounds top ws hi
        → Rounds lo (w ∷ ws) hi
    failed :
        {lo hi : ℕ} {w : Surroundings} {ws : List Surroundings} {err : Str}
        → Fails w err
        → Rounds lo ws hi
        → Rounds lo (w ∷ ws) hi

  Rounds-le : {lo hi : ℕ} {ws : List Surroundings} → Rounds lo ws hi → lo ≤ hi
  Rounds-le stop = omega arith
  Rounds-le (answered p answers rounds) = omega (arith, Rounds-le rounds)
  Rounds-le (failed fails rounds) = Rounds-le rounds

  Rounds-append :
      {lo mid hi : ℕ} {ws vs : List Surroundings}
      → Rounds lo ws mid
      → Rounds mid vs hi
      → Rounds lo (ws ++ vs) hi
  Rounds-append stop more = more
  Rounds-append (answered later answers rounds) more =
      answered later answers (Rounds-append rounds more)
  Rounds-append (failed fails rounds) more = failed fails (Rounds-append rounds more)

  -- the parts of what a poll or a sequence of polls leaves
  abbrev pub Leaves : Polled → Option ℕ → List Call → Type 0
  Leaves polled file calls = (polled.poller ≡ p) × ((polled.file ≡ file) × (polled.calls ≡ calls))

  answered-calls :
      (w : Surroundings) (n top : ℕ)
      → IsOrdered box
      → Answers w top
      → (poll m p w (some (suc n))).calls ≡ all_calls m p (between (suc n) top box)
  answered-calls w n top ordered answers =
      let msgs = between (suc n) top box in
      let enough : length msgs * suc (length p.rules) < w.ctx = ground (
        arith,
        answers.stays_open,
        mul-le-mul_right (suc (length p.rules)) (length-between_le (suc n) top box),
      ) in
      let (kept, once, made) = poll-all_calls m p w n msgs top (answers.history (suc n)) enough in
      made
      ∙ ap (all_calls m p)
          (dedup_distinct msgs kept (between-IsDistinct (suc n) top box ordered) once)

  answered-Leaves :
      (w : Surroundings) (n top : ℕ)
      → IsOrdered box
      → suc n ≤ top
      → Answers w top
      → Leaves (poll m p w (some (suc n))) (some top) (all_calls m p (between (suc n) top box))
  unfolding handle_messages
  answered-Leaves w n top ordered later answers =
      let read = poll_of_history m p w n (between (suc n) top box) top (answers.history (suc n)) in
      (
        ap Polled.poller read,
        (
          ap Polled.file read ∙ ground (arith, later, answers.saves top (some (suc n))),
          answered-calls w n top ordered answers,
        ),
      )

  silent :
      (w : Surroundings) (err : Str)
      → ((cfg : GmailAuthAlertConfig) → ¬ IsDue p w err cfg)
      → handle_auth_error m p w err ≡ (p, [])
  silent w err none_due = elim (IsDue-or_idle m p w err) [
    | inl (cfg, due) ↦ absurd (none_due cfg due)
    | inr idle ↦ idle
  ]

  current :
      (err : Str)
      → ¬ StandsIn (codes "404") err
      → ¬ StandsIn (codes "notFound") err
      → is_expired err ≡ false
  unfolding is_expired
  current err found known =
      ground (arith, contains_iff err (codes "404"), contains_iff err (codes "notFound"))

  failed-Leaves :
      (w : Surroundings) (n : ℕ) (err : Str)
      → Fails w err
      → Leaves (poll m p w (some (suc n))) (some (suc n)) []
  unfolding recover
  failed-Leaves w n err fails =
      rw
        (
          poll_of_error m p w n err (fails.history (suc n)),
          current err fails.found fails.known,
          silent w err fails.no_alert,
        )
        (refl, (refl, refl))

  followed-Leaves :
      (first : Polled) (next : Poller → Option ℕ → Polled) (file file' : Option ℕ)
      (calls calls' : List Call)
      → Leaves first file calls
      → Leaves (next p file) file' calls'
      → Leaves (followed first next) file' (calls ++ calls')
  followed-Leaves first next file file' calls calls' h h' =
      rw (h.0, h.1.0, h.1.1, h'.1.1) (h'.0, (h'.1.0, refl))

  polls-Leaves :
      {n hi : ℕ} {ws : List Surroundings}
      → IsOrdered box
      → Rounds (suc n) ws hi
      → Leaves (polls m ws p (some (suc n))) (some hi) (all_calls m p (between (suc n) hi box))
  unfolding polls
  polls-Leaves {n} ordered stop = (refl, (refl, sym (ap (all_calls m p) (between-nil (suc n) box))))
  polls-Leaves {n} {hi} ordered (answered {top = zero} {w} {ws} later answers rounds) =
      absurd (ground arith)
  polls-Leaves {n} {hi} ordered (answered {top = suc top} {w} {ws} later answers rounds) =
      let next = polls-Leaves ordered rounds in
      let whole =
        followed-Leaves (poll m p w (some (suc n))) (polls m ws) (some (suc top)) (some hi)
          (all_calls m p (between (suc n) (suc top) box)) (all_calls m p (between (suc top) hi box))
          (answered-Leaves w n (suc top) ordered later answers) next in
      (
        whole.0,
        (
          whole.1.0,
          whole.1.1
              ∙ sym
                  (all_calls-append m p (between (suc n) (suc top) box) (between (suc top) hi box))
              ∙ ap (all_calls m p)
                  (between-append (suc n) (suc top) hi box later (Rounds-le rounds) ordered),
        ),
      )
  polls-Leaves {n} {hi} ordered (failed {w} {ws} {err} fails rounds) =
      followed-Leaves (poll m p w (some (suc n))) (polls m ws) (some (suc n)) (some hi) [] _
        (failed-Leaves w n err fails) (polls-Leaves ordered rounds)

  -- The poller starts with the id in its file, or with the current id of a mailbox that is new to it.
  pub data Begins (w : Surroundings) : Option ℕ → ℕ → Type 0 where
    resumed : {lo : ℕ} → Begins w (some lo) lo
    initialized :
        {lo : ℕ}
        → w.client.get_current_history_id ≡ inr lo
        → w.write lo none ≡ some lo
        → Begins w none lo

  start-Leaves :
      {w : Surroundings} {file : Option ℕ} {lo : ℕ}
      → Begins w file lo
      → Leaves (start m p w file) (some lo) []
  unfolding start initialize
  start-Leaves resumed = (refl, (refl, refl))
  start-Leaves {w} (initialized current saved) = rw (current) (refl, (saved, refl))

  -- The messages of the mailbox come in the order of their ids, none twice. The poller starts at an id
  -- other than 0, the one in its file or the current one, which it saves. Its
  -- polls either read the history, up to ids that do not go back, with a save that works and a context
  -- that stays open, or fail with an error whose text has neither 404 nor notFound and for which no alert
  -- is due. Then it makes the calls of all rules for each message that comes after the id at the start and
  -- up to the id of the last answer, once each and in the order in which they come, and saves this
  -- last id, however many polls fail so. Of polls that fail with 404 or notFound nothing is said.
  pub run-all_calls :
      {w : Surroundings} {ws : List Surroundings} {file : Option ℕ} {n hi : ℕ}
      → IsOrdered box
      → Begins w file (suc n)
      → Rounds (suc n) ws hi
      → ((run m w ws p file).calls ≡ all_calls m p (between (suc n) hi box))
        × ((run m w ws p file).file ≡ some hi)
  unfolding run
  run-all_calls {w} {ws} {file} {n} {hi} ordered begins rounds =
      let whole =
        followed-Leaves (start m p w file) (polls m ws) (some (suc n)) (some hi) [] _
          (start-Leaves begins) (polls-Leaves ordered rounds) in
      (whole.1.1, whole.1.0)

  -- The messages of the mailbox come in the order of their ids, none twice. The poller starts at an id
  -- other than 0, the one in its file or the current one, which it saves. Its
  -- polls either read the history, up to ids that do not go back, with a save that works and a context
  -- that stays open, or fail with an error whose text has neither 404 nor notFound and for which no alert
  -- is due. Then a message that comes after the id at the start gets the calls of all rules as soon as
  -- one poll reads up to it, however many polls fail so before. Of polls that fail with 404 or notFound,
  -- behind which a message may be left out, nothing is said.
  pub run_delivers :
      {w last : Surroundings} {ws : List Surroundings} {file : Option ℕ} {n lo : ℕ} (top at : ℕ)
      (msg : HistoryMessage)
      → IsOrdered box
      → Comes at msg box
      → Begins w file (suc n)
      → Rounds (suc n) ws lo
      → lo ≤ top
      → Answers last top
      → suc n < at
      → at ≤ top
      → (before after : List Call) × ((run m w (ws ++ last ∷ []) p file).calls
          ≡ before ++ (rules_calls m p p.rules msg ++ after))
  run_delivers {n} top at msg ordered comes begins rounds later answers new read =
      let (before, after, split) = between-Comes (suc n) top at msg box comes new read in
      let whole =
        run-all_calls ordered begins (Rounds-append rounds (answered later answers stop)) in
      (
        all_calls m p before,
        all_calls m p after,
        whole.0 ∙ ap (all_calls m p) split ∙ all_calls-append m p before (msg ∷ after),
      )
