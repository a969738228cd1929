-- ===== src/Gmail/PollTests.antt =====
-- Runs of the loop of the poller, and the theorems at concrete inputs.
use openclaw_relay.Base.{ℕ, ◌≡◌, refl, inl, inr, none, some, List, [], ◌∷◌, ◌++◌, arith}
use openclaw_relay.Base.Str.{codes, contains, has_prefix}
use openclaw_relay.Gateway.{Call}
use openclaw_relay.Gmail.Poller.Jobs.{all_calls, rules_calls}
use openclaw_relay.Gmail.Poll.{Surroundings, is_auth_error}
use openclaw_relay.Gmail.Poll.Mailbox.{Mailbox, IsOrdered, between}
use openclaw_relay.Gmail.Poll.Loop.{run}
use openclaw_relay.Gmail.Poll.Delivery.{
  Answers, Fails, Rounds, stop, answered, failed, initialized, run-all_calls, run_delivers,
}
use openclaw_relay.Gmail.Poller.Rules.{contains_iff}
use openclaw_relay.Gmail.Poll.Alerts.{is_auth_error_iff}
use openclaw_relay.Gmail.Tests.{mail, poller, bill, spam, surroundings}

-- a bill and another message, in the mailbox at the ids 6 and 8
abbrev box : Mailbox
box = (6, bill) ∷ (8, spam) ∷ []

box-IsOrdered : IsOrdered box
unfolding codes
box-IsOrdered = (((omega arith, λ e. ground (arith, e)), tt), (tt, tt))

abbrev working : ℕ → Surroundings
working top = record surroundings {
  client = record {
    get_current_history_id = inr top;
    get_history = λ id. inr (between id top box, top);
  };
  write = λ id file. some id;
}

abbrev down : Surroundings
down = record surroundings {
  client = record {
    get_current_history_id = inl (codes "timeout");
    get_history = λ id. inl (codes "timeout");
  };
}

working-Answers : (top : ℕ) → Answers mail poller box (working top) top
working-Answers top = record {
  history = λ id. refl;
  saves = λ id file. refl;
  stays_open = ground arith;
}

down-Fails : Fails mail poller box down (codes "timeout")
unfolding is_auth_error contains has_prefix codes
down-Fails = record {
  history = λ id. refl;
  found = λ h. ground (arith, (contains_iff (codes "timeout") (codes "404")).1 h);
  known = λ h. ground (arith, (contains_iff (codes "timeout") (codes "notFound")).1 h);
  no_alert = λ cfg due. ground (arith, (is_auth_error_iff (codes "timeout")).1 due.about);
}

outage : Rounds mail poller box 5 (working 6 ∷ down ∷ []) 6
outage = answered (ground arith) (working-Answers 6) (failed down-Fails stop)

run-all_calls_example :
    ((run mail (working 5) (working 6 ∷ down ∷ []) poller none).calls
      ≡ all_calls mail poller (between 5 6 box))
    × ((run mail (working 5) (working 6 ∷ down ∷ []) poller none).file ≡ some 6)
run-all_calls_example = run-all_calls mail poller box box-IsOrdered (initialized refl refl) outage

run_delivers_example :
    (before after : List Call) × ((run mail
        (working 5)
        (working 6 ∷ down ∷ working 9 ∷ [])
        poller
        none).calls
      ≡ before ++ (rules_calls mail poller poller.rules spam ++ after))
run_delivers_example =
    run_delivers mail poller box 9 8 spam box-IsOrdered (inr (inl (refl, refl)))
      (initialized refl refl) outage (ground arith) (working-Answers 9) (ground arith)
      (ground arith)
