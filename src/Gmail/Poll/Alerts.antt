-- ===== src/Gmail/Poll/Alerts.antt =====
-- The alert about a failed login of internal/gmail/poller.go.
use openclaw_relay.Base.{
  if◌then◌else◌, ◌++◌, Option, ℕ, zero, suc, ◌-◌, ◌≤◌, ◌<◌, ◌≡◌, ◌≢◌, ◌⊎◌, ◌↔◌, inl, inr, refl, sym,
  ap, ◌∙◌, true, false, none, some, [], ◌∷◌, arith, Bool-cases, Option-cases,
}
use openclaw_relay.Base.Int.{ℤ, pos, negsuc, is_zero}
use openclaw_relay.Base.Str.{Str, ◌==◌, codes, eq_iff}
use openclaw_relay.Gateway.{Call, one_shot_job_for_agent}
use openclaw_relay.Config.{GmailAuthAlertConfig}
use openclaw_relay.Gmail.{Mail}
use openclaw_relay.Gmail.Poller.{Poller}
use openclaw_relay.Gmail.Poller.Rules.{StandsIn, contains_iff}
use openclaw_relay.Gmail.Poll.{
  Surroundings, is_auth_error, is_within, cools_down, alert_data, alert_call, send_alert,
  handle_auth_error,
}

-- The text of the error says that the login failed.
abbrev pub IsAuthError : Str → Type 0
IsAuthError err =
    StandsIn (codes "not authenticated") err
    ⊎ StandsIn (codes "token refresh") err
    ⊎ StandsIn (codes "oauth2") err
    ⊎ StandsIn (codes "401") err
    ⊎ StandsIn (codes "invalid_grant") err

pub is_auth_error_iff : (err : Str) → (is_auth_error err ≡ true) ↔ IsAuthError err
unfolding is_auth_error
is_auth_error_iff err = ground (
  arith,
  contains_iff err (codes "not authenticated"),
  contains_iff err (codes "token refresh"),
  contains_iff err (codes "oauth2"),
  contains_iff err (codes "401"),
  contains_iff err (codes "invalid_grant"),
)

-- No alert has been tried within the cooldown before `since`.
abbrev pub IsRested : Poller → ℕ → Type 0
IsRested p since =
    (last cooldown : ℕ)
    → p.last_auth_err ≡ some last
    → p.auth_err_cooldown ≡ pos cooldown
    → cooldown ≤ since - last

cools_iff :
    (tried : Option ℕ) (cooldown : ℤ) (since : ℕ)
    → ((elim tried [ none ↦ false | some last ↦ is_within (since - last) cooldown ]) ≡ false)
      ↔ ((last bound : ℕ) → tried ≡ some last → cooldown ≡ pos bound → bound ≤ since - last)
cools_iff none cooldown since = (λ _ last bound e f. absurd (ground (arith, e)), λ _. refl)
cools_iff (some l) (pos c) since =
    (λ h last bound e f. ground (arith, h, e, f), λ r. ground (arith, r l c refl refl))
cools_iff (some l) (negsuc c) since = (λ _ last bound e f. absurd (ground (arith, f)), λ _. refl)

cools_down_iff : (p : Poller) (since : ℕ) → (cools_down p since ≡ false) ↔ IsRested p since
unfolding cools_down
cools_down_iff p since = cools_iff p.last_auth_err p.auth_err_cooldown since

-- An alert is due: alerts are enabled, the error says that the login failed, and the cooldown is over.
pub record IsDue (p : Poller) (w : Surroundings) (err : Str) (cfg : GmailAuthAlertConfig)
    : Type 0 where
  configured : p.auth_alert_cfg ≡ some cfg
  enabled : cfg.enabled ≡ true
  pub about : IsAuthError err
  rested : IsRested p w.since

ctx_cases : (ctx : ℕ) → (ctx ≡ zero) ⊎ ((rest : ℕ) × (ctx ≡ suc rest))
ctx_cases zero = inl refl
ctx_cases (suc rest) = inr (rest, refl)

-- The message template of the configuration, or a fixed one if that is empty.
abbrev pub IsTemplate : GmailAuthAlertConfig → Str → Type 0
IsTemplate cfg template =
    (cfg.message_template ≢ []) × (template ≡ cfg.message_template)
    ⊎ (cfg.message_template ≡ [])
      × (template ≡ codes "[Relay Alert] Gmail auth failed for {{.AccountEmail}}: {{.Error}}")

-- The template filled in, or a fixed text if that fails.
abbrev pub IsWorded : Option Str → Str → Str → Type 0
IsWorded filled fixed message = (filled ≡ some message) ⊎ (filled ≡ none) × (message ≡ fixed)

-- The timeout of the configuration, or 90 seconds if that is zero.
abbrev pub IsTimed : ℤ → ℤ → Type 0
IsTimed given timeout = (given ≢ pos 0) × (timeout ≡ given) ⊎ (given ≡ pos 0) × (timeout ≡ pos 90)

-- The call for the alert: a job of the agent that is configured for it, whose message is the template
-- filled in with the account, the error and the time.
pub record IsAlert (m : Mail) (p : Poller) (w : Surroundings) (err : Str)
    (cfg : GmailAuthAlertConfig) (call : Call) : Type 0 where
  template : Str
  message : Str
  timeout : ℤ
  templated : IsTemplate cfg template
  worded :
      IsWorded
        (m.render template (
          (codes "AccountEmail", p.account_email)
          ∷ (codes "Error", err)
          ∷ (codes "NowRFC3339", w.now_rfc3339)
          ∷ []))
        (codes "[Relay Alert] Gmail auth failed for " ++ (p.account_email ++ (codes ": " ++ err)))
        message
  timed : IsTimed cfg.timeout timeout
  same :
      call
      ≡ one_shot_job_for_agent
          (codes "gmail-auth-alert/" ++ p.account_email)
          message
          cfg.agent_id
          timeout
          cfg.delay

template_iff :
    (given fixed template : Str)
    → ((given ≢ []) × (template ≡ given) ⊎ (given ≡ []) × (template ≡ fixed))
      ↔ (template ≡ (if given == [] then fixed else given))
template_iff given fixed template = ground (arith, eq_iff given [])

IsWorded-iff :
    (filled : Option Str) (fixed message : Str)
    → IsWorded filled fixed message ↔ (message ≡ elim filled [ none ↦ fixed | some text ↦ text ])
IsWorded-iff none fixed message = ground arith
IsWorded-iff (some text) fixed message = ground arith

IsTimed-iff :
    (given timeout : ℤ)
    → IsTimed given timeout ↔ (timeout ≡ (if is_zero given then pos 90 else given))
IsTimed-iff (pos zero) timeout = ground arith
IsTimed-iff (pos (suc n)) timeout = ground arith
IsTimed-iff (negsuc n) timeout = ground arith

module _ (m : Mail) (p : Poller) (w : Surroundings) (err : Str) (cfg : GmailAuthAlertConfig) where
  IsAlert-iff : (call : Call) → IsAlert m p w err cfg call ↔ (call ≡ alert_call m p cfg w err)
  unfolding alert_call alert_data
  IsAlert-iff call = (
    λ h.
        let template = (template_iff cfg.message_template _ h.template).0 h.templated in
        let message = (IsWorded-iff _ _ h.message).0 h.worded in
        let timeout = (IsTimed-iff cfg.timeout h.timeout).0 h.timed in
        h.same ∙ rw (message, timeout, template) refl,
    λ e. record {
      template = _;
      message = _;
      timeout = _;
      templated = (template_iff cfg.message_template _ _).1 refl;
      worded = (IsWorded-iff _ _ _).1 refl;
      timed = (IsTimed-iff cfg.timeout _).1 refl;
      same = e;
    },
  )

module _ (m : Mail) (p : Poller) (w : Surroundings) (err : Str) where
  due_alert :
      (cfg : GmailAuthAlertConfig)
      → IsDue p w err cfg
      → handle_auth_error m p w err ≡ send_alert m p cfg w err
  unfolding handle_auth_error
  due_alert cfg due =
      let quiet : cools_down p w.since ≡ false = (cools_down_iff p w.since).1 due.rested in
      let auth : is_auth_error err ≡ true = (is_auth_error_iff err).1 due.about in
      simp (handle_auth_error, due.configured, due.enabled, auth, quiet)

  pub IsDue-or_idle :
      ((cfg : GmailAuthAlertConfig) × IsDue p w err cfg) ⊎ (handle_auth_error m p w err ≡ (p, []))
  unfolding handle_auth_error
  IsDue-or_idle = elim (Option-cases p.auth_alert_cfg) [
    | inl off ↦ inr (simp (handle_auth_error, off))
    | inr (cfg, e) ↦ elim (Bool-cases cfg.enabled) [
      | inr off ↦ inr (simp (handle_auth_error, e, off))
      | inl on ↦ elim (Bool-cases (is_auth_error err)) [
        | inr other ↦ inr (simp (handle_auth_error, e, on, other))
        | inl auth ↦ elim (Bool-cases (cools_down p w.since)) [
          | inl cool ↦ inr (simp (handle_auth_error, e, on, auth, cool))
          | inr rested ↦ inl (
            cfg,
            record {
              configured = e;
              enabled = on;
              about = (is_auth_error_iff err).0 auth;
              rested = (cools_down_iff p w.since).0 rested;
            },
          )
        ]
      ]
    ]
  ]

  sent_iff :
      (cfg : GmailAuthAlertConfig) (call : Call)
      → ((send_alert m p cfg w err).1 ≡ call ∷ [])
        ↔ ((w.ctx ≢ zero) × (call ≡ alert_call m p cfg w err))
  unfolding send_alert
  sent_iff cfg call = elim (ctx_cases w.ctx) [
    | inl over ↦
        simp (send_alert, over)
          (λ h. absurd (ground (arith, h)), λ (undone, _). absurd (undone refl))
    | inr (rest, undone) ↦
        simp (send_alert, undone)
          (λ h. (λ e. ground (arith, e), ground (arith, h)), λ (_, e). ground (arith, e))
  ]

  pub handle_auth_error-IsDue :
      (call : Call)
      → ((handle_auth_error m p w err).1 ≡ call ∷ []) ↔ (
          (cfg : GmailAuthAlertConfig) × IsDue p w err cfg
          × (w.ctx ≢ zero)
          × IsAlert m p w err cfg call)
  handle_auth_error-IsDue call = (
    λ h. elim IsDue-or_idle [
      | inr idle ↦ absurd (ground (arith, h, ap (λ r. r.1) idle))
      | inl (cfg, due) ↦
          let (undone, same) =
            (sent_iff cfg call).0 (ap (λ r. r.1) (sym (due_alert cfg due)) ∙ h) in
          (cfg, due, undone, (IsAlert-iff m p w err cfg call).1 same)
    ],
    λ (cfg, due, undone, alert).
        ap (λ r. r.1) (due_alert cfg due)
        ∙ (sent_iff cfg call).1 (undone, (IsAlert-iff m p w err cfg call).0 alert),
  )

  tried_at :
      (cfg : GmailAuthAlertConfig)
      → (send_alert m p cfg w err).0 ≡ record p { last_auth_err = some w.now }
  unfolding send_alert
  tried_at cfg = elim (ctx_cases w.ctx) [
    | inl over ↦ simp (send_alert, over)
    | inr (rest, undone) ↦ simp (send_alert, undone)
  ]

-- After an alert no other is sent, and nothing else is done about failed logins, until the cooldown is
-- over.
pub handle_auth_error_again :
    (m : Mail) (p : Poller) (w w' : Surroundings) (err err' : Str) (call : Call) (cooldown : ℕ)
    → p.auth_err_cooldown ≡ pos cooldown
    → (handle_auth_error m p w err).1 ≡ call ∷ []
    → w'.since - w.now < cooldown
    → handle_auth_error m (handle_auth_error m p w err).0 w' err'
      ≡ ((handle_auth_error m p w err).0, [])
handle_auth_error_again m p w w' err err' call cooldown bound alerted soon =
    let (cfg, due, _, _) = (handle_auth_error-IsDue m p w err call).0 alerted in
    let after : (handle_auth_error m p w err).0 ≡ record p { last_auth_err = some w.now } =
      ap (λ r. r.0) (due_alert m p w err cfg due) ∙ tried_at m p w err cfg in
    elim (IsDue-or_idle m (handle_auth_error m p w err).0 w' err') [
      | inr idle ↦ idle
      | inl (cfg', due') ↦ absurd (
          ground (
            arith,
            soon,
            due'.rested w.now cooldown (ap (λ q. q.last_auth_err) after)
                (ap (λ q. q.auth_err_cooldown) after ∙ bound),
          ))
    ]
