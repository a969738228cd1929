-- ===== src/Gmail/Poller.antt =====
-- The poller of internal/gmail/poller.go. Logging is left out; an error of the gateway is only logged,
-- so a call of it is an entry of a list of calls. The state file is the history id that it holds, or
-- `none` where it cannot be read; `write` says what a save leaves in it, as saving may fail.
pub mod Dedup
pub mod Rules
pub mod Jobs
use openclaw_relay.Base.{
  ℕ, zero, suc, ◌-◌, Bool, true, false, not, ◌&&◌, Option, none, some, List, [], ◌∷◌, ◌++◌, ltb,
  nat_eq, if◌then◌else◌, length, take, drop, any, all,
}
use openclaw_relay.Base.Int.{ℤ, pos}
use openclaw_relay.Base.Str.{Str, ◌==◌, codes, contains}
use openclaw_relay.Base.Map.{Map, lookup, insert}
use openclaw_relay.Gateway.{Call, one_shot_job_for_agent}
use openclaw_relay.Config.{
  GmailAuthAlertConfig, GmailMatch, GmailRule, GmailNotifyAction, resolved_template,
  resolved_agent_id, resolved_timeout, resolved_delay, is_cron,
}
use openclaw_relay.Gmail.{HistoryMessage, Mail}

pub record Poller : Type 0 where
  pub account_email : Str
  pub rules : List GmailRule
  pub interval : ℤ
  pub last_auth_err : Option ℕ
  pub auth_alert_cfg : Option GmailAuthAlertConfig
  pub auth_err_cooldown : ℤ

-- the duration of the text, or the default where it is empty or cannot be parsed
abbrev duration_or : Mail → ℤ → Str → ℤ
duration_or m default [] = default
duration_or m default (c ∷ s) = elim (m.parse_duration (c ∷ s)) [ none ↦ default | some d ↦ d ]

unfoldable pub new_poller_for_account :
    Mail → Str → Str → List GmailRule → Option GmailAuthAlertConfig → Poller
new_poller_for_account m email poll_interval rules auth_alert = record {
  account_email = email;
  rules = rules;
  interval = duration_or m (pos 60000000000) poll_interval;
  last_auth_err = none;
  auth_alert_cfg = auth_alert;
  auth_err_cooldown = elim auth_alert [
    | none ↦ pos 1800000000000
    | some cfg ↦ duration_or m (pos 1800000000000) cfg.cooldown
  ];
}

-- `strings.ReplaceAll` of one byte
unfoldable pub replace_byte : ℕ → Str → Str → Str
replace_byte b new [] = []
replace_byte b new (c ∷ s) =
    let rest = replace_byte b new s in if nat_eq c b then new ++ rest else c ∷ rest

-- The name of the state file in the state directory.
unfoldable pub state_file : Str → Str
unfolding replace_byte
state_file email =
    let safe = replace_byte b'@' (codes "_at_") (replace_byte b'/' (codes "_") email) in
    codes "gmail-state-" ++ (safe ++ codes ".json")

-- `strings.HasSuffix`
unfoldable pub has_suffix : Str → Str → Bool
has_suffix s p = not (ltb (length s) (length p)) && drop (length s - length p) s == p

-- One pattern of `from`, in lower case already, on the sender.
unfoldable pub pattern_matches : Str → Str → Bool
unfolding has_suffix
pattern_matches from [] = contains from []
pattern_matches from (c ∷ pattern) =
    if nat_eq c b'*' then has_suffix from pattern else contains from (c ∷ pattern)

unfoldable pub match_rule : Mail → GmailMatch → HistoryMessage → Bool
unfolding pattern_matches
match_rule m match msg =
    all (λ required. any (λ l. l == required) msg.labels) match.labels
    && (if ltb 0 (length match.from)
        then any (λ pattern. pattern_matches (m.to_lower msg.from) (m.to_lower pattern)) match.from
        else true)

unfoldable pub template_data : Poller → HistoryMessage → Map Str
template_data p msg =
    (codes "From", msg.from)
    ∷ (codes "Subject", msg.subject)
    ∷ (codes "Snippet", msg.snippet)
    ∷ (codes "ID", msg.id)
    ∷ (codes "MessageID", msg.id)
    ∷ (codes "ThreadID", msg.thread_id)
    ∷ (codes "AccountEmail", p.account_email)
    ∷ []

unfoldable pub job_name : Str → Str → HistoryMessage → Str
job_name label rule_name msg =
    let subject =
      if ltb 50 (length msg.subject) then take 50 msg.subject ++ codes "..." else msg.subject in
    if not (rule_name == [])
    then label ++ (codes "/" ++ (rule_name ++ (codes ": " ++ subject)))
    else label ++ (codes ": " ++ subject)

-- "📧 {{.From}}: {{.Subject}}"
unfoldable pub default_template : Str
default_template = 240 ∷ 159 ∷ 147 ∷ 167 ∷ codes " {{.From}}: {{.Subject}}"

abbrev or_default_template : Str → Str
or_default_template template = if template == [] then default_template else template

unfoldable pub cron_calls : Mail → Poller → GmailRule → HistoryMessage → List Call
cron_calls m p rule msg =
    let template = or_default_template (resolved_template rule.action) in
    elim (m.render template (template_data p msg)) [
      | none ↦ []
      | some message ↦
          one_shot_job_for_agent (job_name (codes "gmail") rule.name msg) message
            (resolved_agent_id rule.action) (resolved_timeout rule.action)
            (resolved_delay rule.action)
          ∷ []
    ]

unfoldable pub notify_text : GmailNotifyAction → Str → Str
notify_text notify message =
    codes "Send this exact message to Telegram (target="
    ++ (notify.target
        ++ (codes ", channel="
            ++ (notify.channel ++ (codes "). Just send it, no extra text:\n\n" ++ message))))

unfoldable pub notify_calls : Mail → Poller → GmailNotifyAction → HistoryMessage → List Call
notify_calls m p notify msg =
    let template = or_default_template notify.template in
    elim (m.render template (template_data p msg)) [
      | none ↦ []
      | some message ↦
          one_shot_job_for_agent (job_name (codes "gmail-notify") [] msg)
            (notify_text notify message) notify.agent_id (pos 30) (pos 0)
          ∷ []
    ]

-- The test of the context at the head of an action: the calls are made if it is not done.
unfoldable pub guarded : ℕ → List Call → ℕ × List Call
guarded zero calls = (zero, [])
guarded (suc ctx) calls = (ctx, calls)

-- The branches for a rule that matches.
unfoldable pub act : Mail → Poller → ℕ → GmailRule → HistoryMessage → ℕ × List Call
act m p ctx rule msg =
    if is_cron rule.action then guarded ctx (cron_calls m p rule msg) else elim rule.action.notify [
      | none ↦ (ctx, [])
      | some notify ↦ guarded ctx (notify_calls m p notify msg)
    ]

-- The first step and then the second, from where the first leaves the context.
abbrev pub chain : ℕ × List Call → (ℕ → ℕ × List Call) → ℕ × List Call
chain ran next = ((next ran.0).0, ran.1 ++ (next ran.0).1)

unfoldable pub evaluate_rules : Mail → Poller → ℕ → List GmailRule → HistoryMessage → ℕ × List Call
unfolding act match_rule
evaluate_rules m p ctx [] msg = (ctx, [])
evaluate_rules m p ctx (rule ∷ rules) msg =
    if not (match_rule m rule.match msg)
    then evaluate_rules m p ctx rules msg
    else chain (act m p ctx rule msg) (λ ctx'. evaluate_rules m p ctx' rules msg)

-- The loop over the messages, with the test of the context before each.
unfoldable pub process : Mail → Poller → ℕ → List HistoryMessage → ℕ × List Call
unfolding evaluate_rules
process m p ctx [] = (ctx, [])
process m p zero (msg ∷ msgs) = (zero, [])
process m p (suc ctx) (msg ∷ msgs) =
    chain (evaluate_rules m p ctx p.rules msg) (λ ctx'. process m p ctx' msgs)

-- The loop that removes duplicates: the map `seen`, the rest, and the messages kept.
abbrev is_seen : Option Bool → Bool
is_seen none = false
is_seen (some v) = v

unfoldable pub dedup : Map Bool → List HistoryMessage → Map Bool × List HistoryMessage
unfolding lookup insert
dedup seen [] = (seen, [])
dedup seen (msg ∷ msgs) =
    if is_seen (lookup msg.id seen)
    then dedup seen msgs
    else let rest = dedup (insert msg.id true seen) msgs in (rest.0, msg ∷ rest.1)
