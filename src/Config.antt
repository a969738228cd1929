-- ===== src/Config.antt =====
-- The configuration of internal/config/config.go: its records and methods. A YAML map of list names
-- is a `Map`, ranged over in an order of Go's choice; durations stay strings here, as in the source.
pub mod Env
pub mod Accounts
pub mod Lists
pub mod Load
mod Tests
use openclaw_relay.Base.{
  ℕ, zero, suc, Bool, true, false, ◌&&◌, ◌||◌, not, Option, none, some, List, [], ◌∷◌, ◌++◌, ltb,
  if◌then◌else◌, length, map,
}
use openclaw_relay.Base.Int.{ℤ, pos, is_positive}
use openclaw_relay.Base.Str.{Str, ◌==◌, codes}
use openclaw_relay.Base.Map.{Map}

pub record GoogleConfig : Type 0 where
  pub client_id : Str
  pub client_secret : Str
  pub redirect_url : Str
  pub allowed_emails : List Str

pub record GmailAuthAlertConfig : Type 0 where
  pub enabled : Bool
  pub agent_id : Str
  pub cooldown : Str
  pub timeout : ℤ
  pub delay : ℤ
  pub message_template : Str

pub record GmailMatch : Type 0 where
  pub from : List Str
  pub labels : List Str
  pub query : Str

pub record GmailNotifyAction : Type 0 where
  pub target : Str
  pub channel : Str
  pub template : Str
  pub agent_id : Str

pub record GmailAction : Type 0 where
  pub kind : Str
  pub agent_id : Str
  pub timeout : ℤ
  pub delay : ℤ
  pub message_template : Str
  pub notify : Option GmailNotifyAction

pub record GmailRule : Type 0 where
  pub name : Str
  pub match : GmailMatch
  pub action : GmailAction

pub record GmailAccountConf : Type 0 where
  pub email : Str
  pub poll_interval : Str
  pub rules : List GmailRule

pub record GmailConfig : Type 0 where
  pub enabled : Bool
  pub poll_interval : Str
  pub accounts : List GmailAccountConf
  pub auth_alert : Option GmailAuthAlertConfig

pub record ServerConfig : Type 0 where
  pub port : ℤ
  pub internal_token : Str

pub record GatewayConfig : Type 0 where
  pub url : Str
  pub token : Str
  pub agent_id : Str
  pub model : Str

pub record RuleAction : Type 0 where
  pub kind : Str
  pub timeout : ℤ
  pub delay : ℤ
  pub agent_id : Str
  pub message_template : Str

pub record TrelloRule : Type 0 where
  pub event : Str
  pub condition : Str
  pub action : RuleAction

pub record TrelloConfig : Type 0 where
  pub secret : Str
  pub lists : Map Str
  pub ignore_members : List Str
  pub rules : List TrelloRule

pub record GitHubConfig : Type 0 where
  pub secret : Str
  pub notify_mode : Str
  pub message_template : Str
  pub agent_id : Str
  pub timeout : ℤ
  pub delay : ℤ

pub record AuditConfig : Type 0 where
  pub log_path : Str

pub record Config : Type 0 where
  pub server : ServerConfig
  pub gateway : GatewayConfig
  pub trello : TrelloConfig
  pub github : GitHubConfig
  pub google : GoogleConfig
  pub gmail : GmailConfig
  pub audit : AuditConfig

unfoldable pub resolved_template : GmailAction → Str
resolved_template a =
    if not (a.message_template == [])
    then a.message_template
    else elim a.notify [ none ↦ [] | some n ↦ if not (n.template == []) then n.template else [] ]

unfoldable pub resolved_agent_id : GmailAction → Str
resolved_agent_id a =
    if not (a.agent_id == []) then a.agent_id else elim a.notify [ none ↦ [] | some n ↦ n.agent_id ]

unfoldable pub resolved_timeout : GmailAction → ℤ
resolved_timeout a = if is_positive a.timeout then a.timeout else pos 30

unfoldable pub resolved_delay : GmailAction → ℤ
resolved_delay a = a.delay

unfoldable pub is_cron : GmailAction → Bool
is_cron a = a.kind == codes "cron" || not (a.message_template == [])

-- `ListIDToName`, where `range` visits `c.Trello.Lists` in the order given.
unfoldable pub list_id_to_name : Map Str → Str → Str
list_id_to_name [] id = []
list_id_to_name ((name, lid) ∷ order) id = if lid == id then name else list_id_to_name order id

-- the copy of an account with the poll interval that it inherits
unfoldable pub inherit : Str → GmailAccountConf → GmailAccountConf
inherit interval a = if a.poll_interval == [] then record a { poll_interval = interval } else a

unfoldable pub resolved_accounts : GmailConfig → List GmailAccountConf
unfolding inherit
resolved_accounts g = map (inherit g.poll_interval) g.accounts

-- The errors of `Validate`; the numbers are the index of the account.
pub data ConfigError : Type 0 where
  gateway_url_required : ConfigError
  email_empty : ℕ → ConfigError
  email_not_allowed : ℕ → Str → ConfigError

-- membership in the set built from a list of strings
unfoldable pub is_member : Str → List Str → Bool
is_member e [] = false
is_member e (x ∷ xs) = x == e || is_member e xs

-- The loop of `Validate` over the accounts, from index `i`.
unfoldable pub check_accounts : List Str → ℕ → List GmailAccountConf → Option ConfigError
unfolding is_member
check_accounts allowed i [] = none
check_accounts allowed i (acc ∷ accounts) =
    if acc.email == []
    then some (email_empty i)
    else if ltb 0 (length allowed) && not (is_member acc.email allowed)
    then some (email_not_allowed i acc.email)
    else check_accounts allowed (suc i) accounts

unfoldable pub has_rules : Config → Bool
has_rules c = ltb 0 (length c.trello.rules) || not (c.github.secret == []) || c.gmail.enabled

unfoldable pub validate : Config → Option ConfigError
unfolding has_rules check_accounts
validate c =
    if has_rules c && c.gateway.url == []
    then some gateway_url_required
    else if c.gmail.enabled
    then check_accounts c.google.allowed_emails 0 c.gmail.accounts
    else none

-- `DefaultGitHubMessageTemplate`, the text behind `strings.TrimSpace`
unfoldable pub default_github_message_template : Str
default_github_message_template =
    codes "[Webhook Event] GitHub event detected.\n\nSource: github\nEvent: {{.Event}}\n"
    ++ (codes "Action: {{.Action}}\nRepository: {{.Repository}}\nPR: #{{.PRNumber}}\n"
        ++ (codes "{{- if .PRTitle}}\nTitle: {{.PRTitle}}\n{{- end}}\n"
            ++ codes "{{- if .Conclusion}}\nConclusion: {{.Conclusion}}\n{{- end}}"))
