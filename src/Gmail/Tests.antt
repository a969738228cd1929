-- ===== src/Gmail/Tests.antt =====
-- Runs of the poller, and the theorems at concrete inputs.
use openclaw_relay.Base.{
  ℕ, ◌+◌, ◌≡◌, ◌≢◌, ◌↔◌, inl, inr, refl, true, none, some, List, [], ◌∷◌, arith, map, if◌then◌else◌,
  leb, ◌&&◌,
}
use openclaw_relay.Base.Int.{pos}
use openclaw_relay.Base.Str.{◌==◌, codes, contains, has_prefix}
use openclaw_relay.Base.Map.{lookup, insert}
use openclaw_relay.Gateway.{Call, one_shot_job_for_agent}
use openclaw_relay.Config.{
  is_cron, resolved_template, resolved_agent_id, resolved_timeout, resolved_delay,
  GmailAuthAlertConfig, GmailRule,
}
use openclaw_relay.Gmail.{HistoryMessage, Mail}
use openclaw_relay.Gmail.Poller.{
  Poller, match_rule, dedup, state_file, process, replace_byte, has_suffix, pattern_matches,
  evaluate_rules, act, guarded, cron_calls, job_name, template_data,
}
use openclaw_relay.Gmail.Poller.Dedup.{IsDedup}
use openclaw_relay.Gmail.Poller.Rules.{IsMatch, match_rule-IsMatch}
use openclaw_relay.Gmail.Poller.Jobs.{all_calls}
use openclaw_relay.Gmail.Poll.{
  Surroundings, poll, handle_messages, handle_auth_error, is_auth_error, cools_down, send_alert,
  alert_call, alert_data,
}
use openclaw_relay.Gmail.Poll.History.{IsMove, poll-all_calls, poll-IsMove}

-- lower case of ASCII letters, and templates that print themselves
abbrev lower_byte : ℕ → ℕ
lower_byte c = if leb b'A' c && leb c b'Z' then c + 32 else c

abbrev pub mail : Mail
mail = record {
  to_lower = map lower_byte;
  render = λ template values. some template;
  parse_duration = λ s. none;
}

abbrev rule : GmailRule
rule = record {
  name = codes "bills";
  match = record { from = codes "*@X.org" ∷ []; labels = codes "INBOX" ∷ []; query = [] };
  action = record {
    kind = codes "cron";
    agent_id = codes "clerk";
    timeout = pos 0;
    delay = pos 5;
    message_template = codes "New bill";
    notify = none;
  };
}

abbrev alert_cfg : GmailAuthAlertConfig
alert_cfg = record {
  enabled = true;
  agent_id = codes "clerk";
  cooldown = [];
  timeout = pos 0;
  delay = pos 0;
  message_template = codes "Log in";
}

abbrev pub poller : Poller
poller = record {
  account_email = codes "me@x.org";
  rules = rule ∷ [];
  interval = pos 60;
  last_auth_err = none;
  auth_alert_cfg = some alert_cfg;
  auth_err_cooldown = pos 1800;
}

abbrev pub bill : HistoryMessage
bill = record {
  id = codes "m1";
  thread_id = codes "t1";
  labels = codes "INBOX" ∷ [];
  subject = codes "Bill";
  from = codes "Acme@x.ORG";
  snippet = [];
}

abbrev pub spam : HistoryMessage
spam = record bill { id = codes "m2"; labels = [] }

abbrev msgs : List HistoryMessage
msgs = bill ∷ spam ∷ bill ∷ []

abbrev pub surroundings : Surroundings
surroundings = record {
  ctx = 10;
  client = record { get_current_history_id = inl (codes "x"); get_history = λ id. inr (msgs, 9) };
  write = λ id file. some id;
  since = 100;
  now = 100;
  now_rfc3339 = [];
}

abbrev bill_call : Call
bill_call =
    one_shot_job_for_agent (codes "gmail/bills: Bill") (codes "New bill") (codes "clerk") (pos 30)
      (pos 5)

-- The bill is read twice and makes one job.
polled : (poll mail poller surroundings (some 5)).calls ≡ bill_call ∷ []
unfolding poll handle_messages process dedup evaluate_rules act guarded cron_calls job_name
    template_data match_rule pattern_matches has_suffix lookup insert codes ◌==◌ contains is_cron
    resolved_template resolved_agent_id resolved_timeout resolved_delay
polled = refl

named : state_file (codes "a/b@c") ≡ codes "gmail-state-a_b_at_c.json"
unfolding state_file replace_byte codes
named = refl

match_rule-IsMatch_example : (match_rule mail rule.match bill ≡ true) ↔ IsMatch mail rule.match bill
match_rule-IsMatch_example = match_rule-IsMatch mail rule.match bill

poll-all_calls_example :
    (kept : List HistoryMessage) × IsDedup [] msgs kept
    × ((poll mail poller surroundings (some 5)).calls ≡ all_calls mail poller kept)
poll-all_calls_example = poll-all_calls mail poller surroundings 4 msgs 9 refl (ground arith)

moves : (poll mail poller surroundings (some 5)).file ≢ some 5
unfolding poll handle_messages
moves e = ground (arith, e)

poll-IsMove_example : IsMove mail poller surroundings 4
poll-IsMove_example = poll-IsMove mail poller surroundings 4 moves

abbrev alert : Call
alert =
    one_shot_job_for_agent (codes "gmail-auth-alert/me@x.org") (codes "Log in") (codes "clerk")
      (pos 90) (pos 0)

alerted : (handle_auth_error mail poller surroundings (codes "oauth2: expired")).1 ≡ alert ∷ []
unfolding handle_auth_error is_auth_error cools_down send_alert alert_call alert_data contains
    has_prefix codes ◌==◌
alerted = refl
