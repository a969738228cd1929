-- ===== src/Gmail/Poller/Jobs.antt =====
-- The jobs that the poller of internal/gmail/poller.go makes of the messages.
use openclaw_relay.Base.{
  ◌<◌, ◌*◌, ◌≢◌, ℕ, zero, suc, ◌+◌, ◌≤◌, ◌≡◌, refl, sym, ap, ◌∙◌, none, some, List, [], ◌∷◌, ◌++◌,
  arith, if◌then◌else◌, length, append_assoc, append-nil, Bool-cases, Option-cases, inl, inr, not,
}
use openclaw_relay.Gateway.{Call}
use openclaw_relay.Config.{GmailRule, is_cron}
use openclaw_relay.Gmail.{HistoryMessage, Mail}
use openclaw_relay.Gmail.Poller.{
  Poller, match_rule, cron_calls, notify_calls, guarded, act, chain, evaluate_rules, process,
}

module _ (m : Mail) (p : Poller) where
  -- The calls that the rule makes of the message if nothing interrupts it.
  abbrev pub rule_calls : GmailRule → HistoryMessage → List Call
  rule_calls rule msg =
      if not (match_rule m rule.match msg)
      then []
      else if is_cron rule.action
      then cron_calls m p rule msg
      else elim rule.action.notify [ none ↦ [] | some notify ↦ notify_calls m p notify msg ]

  abbrev pub rules_calls : List GmailRule → HistoryMessage → List Call
  rules_calls [] msg = []
  rules_calls (rule ∷ rules) msg = rule_calls rule msg ++ rules_calls rules msg

  abbrev pub all_calls : List HistoryMessage → List Call
  all_calls [] = []
  all_calls (msg ∷ msgs) = rules_calls p.rules msg ++ all_calls msgs

  -- `calls` are the first of `full`, and all of them unless the context is done.
  record Prefix (ran : ℕ × List Call) (full : List Call) : Type 0 where
    rest : List Call
    split : full ≡ ran.1 ++ rest
    whole : ran.0 ≢ zero → rest ≡ []

  Prefix-chain :
      (ran : ℕ × List Call) (next : ℕ → ℕ × List Call) (full full' : List Call)
      → Prefix ran full
      → ((ctx : ℕ) → Prefix (next ctx) full')
      → ((next zero).1 ≡ []) × ((next zero).0 ≡ zero)
      → Prefix (chain ran next) (full ++ full')
  Prefix-chain (zero, calls) next full full' h h' stop = record {
    rest = h.rest ++ full';
    split = rw (h.split, stop.0, append-nil calls) (append_assoc calls h.rest full');
    whole = λ ne. absurd (ne stop.1);
  }
  Prefix-chain (suc ctx, calls) next full full' h h' stop = record {
    rest = (h' (suc ctx)).rest;
    split =
        ap (λ u. u ++ full')
          (h.split ∙ ap (λ u. calls ++ u) (h.whole (λ e. ground (arith, e))) ∙ append-nil calls)
        ∙ ap (λ u. calls ++ u) (h' (suc ctx)).split
        ∙ sym (append_assoc calls (next (suc ctx)).1 (h' (suc ctx)).rest);
    whole = (h' (suc ctx)).whole;
  }

  Prefix-nil : (ctx : ℕ) → Prefix (ctx, []) []
  Prefix-nil ctx = record { rest = []; split = refl; whole = λ _. refl }

  guarded-Prefix : (ctx : ℕ) (calls : List Call) → Prefix (guarded ctx calls) calls
  unfolding guarded
  guarded-Prefix zero calls = record { rest = calls; split = refl; whole = λ ne. absurd (ne refl) }
  guarded-Prefix (suc ctx) calls = record {
    rest = [];
    split = sym (append-nil calls);
    whole = λ _. refl;
  }

  act-Prefix :
      (ctx : ℕ) (rule : GmailRule) (msg : HistoryMessage)
      → Prefix (act m p ctx rule msg) (
          if is_cron rule.action
          then cron_calls m p rule msg
          else elim rule.action.notify [ none ↦ [] | some notify ↦ notify_calls m p notify msg ])
  unfolding act
  act-Prefix ctx rule msg = elim (Bool-cases (is_cron rule.action)) [
    | inl cron ↦ rw (cron) (guarded-Prefix ctx (cron_calls m p rule msg))
    | inr other ↦ rw (other) (elim (Option-cases rule.action.notify) [
      | inl quiet ↦ rw (quiet) (Prefix-nil ctx)
      | inr (notify, e) ↦ rw (e) (guarded-Prefix ctx (notify_calls m p notify msg))
    ])
  ]

  act_stop :
      (rule : GmailRule) (msg : HistoryMessage)
      → ((act m p zero rule msg).1 ≡ []) × ((act m p zero rule msg).0 ≡ zero)
  unfolding act guarded
  act_stop rule msg = elim (Bool-cases (is_cron rule.action)) [
    | inl cron ↦ rw (cron) (refl, refl)
    | inr other ↦ rw (other) (elim (Option-cases rule.action.notify) [
      | inl quiet ↦ rw (quiet) (refl, refl)
      | inr (notify, e) ↦ rw (e) (refl, refl)
    ])
  ]

  evaluate_rules_stop :
      (rules : List GmailRule) (msg : HistoryMessage)
      → ((evaluate_rules m p zero rules msg).1 ≡ [])
        × ((evaluate_rules m p zero rules msg).0 ≡ zero)
  unfolding evaluate_rules act guarded
  evaluate_rules_stop [] msg = (refl, refl)
  evaluate_rules_stop (rule ∷ rules) msg = elim (Bool-cases (match_rule m rule.match msg)) [
    | inl fits ↦
        rw (fits, (act_stop rule msg).0, (act_stop rule msg).1) (evaluate_rules_stop rules msg)
    | inr other ↦ rw (other) (evaluate_rules_stop rules msg)
  ]

  evaluate_rules-Prefix :
      (rules : List GmailRule) (ctx : ℕ) (msg : HistoryMessage)
      → Prefix (evaluate_rules m p ctx rules msg) (rules_calls rules msg)
  unfolding evaluate_rules
  evaluate_rules-Prefix [] ctx msg = Prefix-nil ctx
  evaluate_rules-Prefix (rule ∷ rules) ctx msg = elim (Bool-cases (match_rule m rule.match msg)) [
    | inl fits ↦ rw (fits) (
        Prefix-chain (act m p ctx rule msg) (λ c. evaluate_rules m p c rules msg) _
          (rules_calls rules msg) (act-Prefix ctx rule msg) (λ c. evaluate_rules-Prefix rules c msg)
          (evaluate_rules_stop rules msg))
    | inr other ↦ rw (other) (evaluate_rules-Prefix rules ctx msg)
  ]

  process_stop :
      (msgs : List HistoryMessage)
      → ((process m p zero msgs).1 ≡ []) × ((process m p zero msgs).0 ≡ zero)
  unfolding process
  process_stop [] = (refl, refl)
  process_stop (msg ∷ msgs) = (refl, refl)

  process-Prefix :
      (msgs : List HistoryMessage) (ctx : ℕ) → Prefix (process m p ctx msgs) (all_calls msgs)
  unfolding process
  process-Prefix [] ctx = Prefix-nil ctx
  process-Prefix (msg ∷ msgs) zero = record {
    rest = all_calls (msg ∷ msgs);
    split = refl;
    whole = λ ne. absurd (ne refl);
  }
  process-Prefix (msg ∷ msgs) (suc ctx) =
      Prefix-chain (evaluate_rules m p ctx p.rules msg) (λ c. process m p c msgs)
        (rules_calls p.rules msg) (all_calls msgs) (evaluate_rules-Prefix p.rules ctx msg)
        (λ c. process-Prefix msgs c) (process_stop msgs)

  guarded_cost : (ctx : ℕ) (calls : List Call) → ctx ≤ (guarded ctx calls).0 + 1
  unfolding guarded
  guarded_cost zero calls = ground arith
  guarded_cost (suc ctx) calls = ground arith

  act_cost :
      (ctx : ℕ) (rule : GmailRule) (msg : HistoryMessage) → ctx ≤ (act m p ctx rule msg).0 + 1
  unfolding act
  act_cost ctx rule msg = elim (Bool-cases (is_cron rule.action)) [
    | inl cron ↦ rw (cron) (guarded_cost ctx (cron_calls m p rule msg))
    | inr other ↦ rw (other) (elim (Option-cases rule.action.notify) [
      | inl quiet ↦ rw (quiet) (ground arith)
      | inr (notify, e) ↦ rw (e) (guarded_cost ctx (notify_calls m p notify msg))
    ])
  ]

  evaluate_rules_cost :
      (rules : List GmailRule) (ctx : ℕ) (msg : HistoryMessage)
      → ctx ≤ (evaluate_rules m p ctx rules msg).0 + length rules
  unfolding evaluate_rules act
  evaluate_rules_cost [] ctx msg = ground arith
  evaluate_rules_cost (rule ∷ rules) ctx msg =
      let after = (act m p ctx rule msg).0 in
      elim (Bool-cases (match_rule m rule.match msg)) [
        | inl fits ↦
            rw (fits) (omega (arith, act_cost ctx rule msg, evaluate_rules_cost rules after msg))
        | inr other ↦ rw (other) (omega (arith, evaluate_rules_cost rules ctx msg))
      ]

  process_cost :
      (msgs : List HistoryMessage) (ctx : ℕ)
      → ctx ≤ (process m p ctx msgs).0 + length msgs * suc (length p.rules)
  unfolding process
  process_cost [] ctx = ground arith
  process_cost (msg ∷ msgs) zero = ground arith
  process_cost (msg ∷ msgs) (suc ctx) =
      let after = (evaluate_rules m p ctx p.rules msg).0 in
      ground (arith, evaluate_rules_cost p.rules ctx msg, process_cost msgs after)

  -- Whatever interrupts the loop, the calls that it made are the first of those for all messages.
  pub process_interrupted :
      (ctx : ℕ) (msgs : List HistoryMessage)
      → (rest : List Call) × (all_calls msgs ≡ (process m p ctx msgs).1 ++ rest)
  process_interrupted ctx msgs = let h = process-Prefix msgs ctx in (h.rest, h.split)

  pub process-all_calls :
      (ctx : ℕ) (msgs : List HistoryMessage)
      → length msgs * suc (length p.rules) < ctx
      → (process m p ctx msgs).1 ≡ all_calls msgs
  process-all_calls ctx msgs enough =
      let h = process-Prefix msgs ctx in
      let undone : (process m p ctx msgs).0 ≢ zero =
        λ e. ground (arith, e, enough, process_cost msgs ctx) in
      sym (
        h.split
        ∙ ap (λ u. (process m p ctx msgs).1 ++ u) (h.whole undone)
        ∙ append-nil (process m p ctx msgs).1)
