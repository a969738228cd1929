-- ===== src/Gmail/Poll.antt =====
-- One poll of internal/gmail/poller.go, the initialisation before the first, and the alert about a
-- failed login. A poll reads the state file and leaves a new one.
pub mod History
pub mod Alerts
pub mod Loop
pub mod Mailbox
pub mod Delivery
use openclaw_relay.Base.{
  ℕ, zero, suc, ◌-◌, Bool, false, not, ◌||◌, Option, none, some, List, [], ◌∷◌, ◌++◌, ltb,
  if◌then◌else◌, inl, inr,
}
use openclaw_relay.Base.Int.{ℤ, pos, negsuc, is_zero}
use openclaw_relay.Base.Str.{Str, ◌==◌, codes, contains}
use openclaw_relay.Base.Map.{Map}
use openclaw_relay.Gateway.{Call, one_shot_job_for_agent}
use openclaw_relay.Config.{GmailAuthAlertConfig}
use openclaw_relay.Gmail.{HistoryMessage, HistoryClient, Mail}
use openclaw_relay.Gmail.Poller.{Poller, process, dedup}

-- What a poll reads of its surroundings: the context, the client's answers, what a save leaves in the
-- state file, and the clock in nanoseconds, as `time.Since` and `time.Now` read it, and in print.
pub record Surroundings : Type 0 where
  pub ctx : ℕ
  pub client : HistoryClient
  pub write : ℕ → Option ℕ → Option ℕ
  pub since : ℕ
  pub now : ℕ
  pub now_rfc3339 : Str

-- The poller, the state file and the calls of the gateway that a poll leaves.
pub record Polled : Type 0 where
  pub poller : Poller
  pub file : Option ℕ
  pub calls : List Call

unfoldable pub is_auth_error : Str → Bool
is_auth_error err =
    contains err (codes "not authenticated")
    || contains err (codes "token refresh")
    || contains err (codes "oauth2")
    || contains err (codes "401")
    || contains err (codes "invalid_grant")

-- `time.Since(last) < cooldown`; the clock does not run backwards.
abbrev pub is_within : ℕ → ℤ → Bool
is_within elapsed (pos cooldown) = ltb elapsed cooldown
is_within elapsed (negsuc n) = false

unfoldable pub cools_down : Poller → ℕ → Bool
cools_down p since = elim p.last_auth_err [
  | none ↦ false
  | some last ↦ is_within (since - last) p.auth_err_cooldown
]

unfoldable pub alert_data : Poller → Surroundings → Str → Map Str
alert_data p w err =
    (codes "AccountEmail", p.account_email)
    ∷ (codes "Error", err)
    ∷ (codes "NowRFC3339", w.now_rfc3339)
    ∷ []

unfoldable pub alert_call : Mail → Poller → GmailAuthAlertConfig → Surroundings → Str → Call
unfolding alert_data
alert_call m p cfg w err =
    let template =
      if cfg.message_template == []
      then codes "[Relay Alert] Gmail auth failed for {{.AccountEmail}}: {{.Error}}"
      else cfg.message_template in
    let message : Str = elim (m.render template (alert_data p w err)) [
      | none ↦
          codes "[Relay Alert] Gmail auth failed for " ++ (p.account_email ++ (codes ": " ++ err))
      | some text ↦ text
    ] in
    let timeout = if is_zero cfg.timeout then pos 90 else cfg.timeout in
    one_shot_job_for_agent (codes "gmail-auth-alert/" ++ p.account_email) message cfg.agent_id
      timeout cfg.delay

-- The alert behind the test for the cooldown.
unfoldable pub send_alert :
    Mail → Poller → GmailAuthAlertConfig → Surroundings → Str → Poller × List Call
unfolding alert_call
send_alert m p cfg w err =
    let p' = record p { last_auth_err = some w.now } in
    elim w.ctx [ zero ↦ (p', []) | suc _ ↦ (p', alert_call m p cfg w err ∷ []) ]

unfoldable pub handle_auth_error : Mail → Poller → Surroundings → Str → Poller × List Call
unfolding send_alert is_auth_error cools_down
handle_auth_error m p w err = elim p.auth_alert_cfg [
  | none ↦ (p, [])
  | some cfg ↦
      if not cfg.enabled
      then (p, [])
      else if not (is_auth_error err)
      then (p, [])
      else if cools_down p w.since
      then (p, [])
      else send_alert m p cfg w err
]

abbrev failed : Mail → Poller → Surroundings → Option ℕ → Str → Polled
failed m p w file err =
    let (p', calls) = handle_auth_error m p w err in
    record { poller = p'; file = file; calls = calls }

-- The state file gets the current history id.
unfoldable pub initialize : Mail → Poller → Surroundings → Option ℕ → Polled
unfolding handle_auth_error
initialize m p w file = elim w.client.get_current_history_id [
  | inl err ↦ failed m p w file err
  | inr hid ↦ record { poller = p; file = w.write hid file; calls = [] }
]

-- What `Start` does before its loop.
unfoldable pub start : Mail → Poller → Surroundings → Option ℕ → Polled
unfolding initialize
start m p w none = initialize m p w none
start m p w (some hid) = record { poller = p; file = some hid; calls = [] }

unfoldable pub is_expired : Str → Bool
is_expired err = contains err (codes "404") || contains err (codes "notFound")

-- The branches for an error of `GetHistory`.
unfoldable pub recover : Mail → Poller → Surroundings → ℕ → Str → Polled
unfolding is_expired handle_auth_error
recover m p w hid err =
    if is_expired err
    then elim w.client.get_current_history_id [
      | inl _ ↦ record { poller = p; file = some hid; calls = [] }
      | inr new ↦ record { poller = p; file = w.write new (some hid); calls = [] }
    ]
    else failed m p w (some hid) err

-- The branch for the messages and the new history id.
unfoldable pub handle_messages : Mail → Poller → Surroundings → ℕ → List HistoryMessage → ℕ → Polled
unfolding process dedup
handle_messages m p w hid msgs new = record {
  poller = p;
  file = if ltb hid new then w.write new (some hid) else some hid;
  calls = (process m p w.ctx (dedup [] msgs).1).1;
}

unfoldable pub poll : Mail → Poller → Surroundings → Option ℕ → Polled
unfolding initialize recover handle_messages
poll m p w none = initialize m p w none
poll m p w (some zero) = initialize m p w (some zero)
poll m p w (some (suc n)) = elim (w.client.get_history (suc n)) [
  | inl err ↦ recover m p w (suc n) err
  | inr (msgs, new) ↦ handle_messages m p w (suc n) msgs new
]
