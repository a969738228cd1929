-- ===== src/Server.antt =====
-- The server of internal/server/server.go and cmd/relay/main.go: which routes it has, what a request to
-- each of them does, and the two handlers around them. What a request reads of the outside world is
-- a `Moment`; requests are taken one after the other.
pub mod Handlers
pub mod Routes
pub mod Jobs
pub mod Log
pub mod LogFile
pub mod Renewal
pub mod Accounts
pub mod Traffic
pub mod Limits
pub mod Replay
pub mod Tests
mod ReplayTests
mod LogTests
mod AccountTests
use openclaw_relay.Base.{
  ℕ, Bool, true, false, not, ◌&&◌, Option, none, some, List, [], ◌∷◌, ◌++◌, ltb, length, map,
  if◌then◌else◌, ◌⊎◌, inl, inr,
}
use openclaw_relay.Base.Str.{Str, ◌==◌, codes}
use openclaw_relay.Base.Map.{Map}
use openclaw_relay.RateLimit.{Limiter, new}
use openclaw_relay.Config.{Config, ConfigError, validate, resolved_accounts}
use openclaw_relay.Gateway.{Client, Call, new_client}
use openclaw_relay.Tokens.{Codec, Store, new_store}
use openclaw_relay.Audit.{Entry}
use openclaw_relay.Auth.Google.{GoogleAuth, new_google_auth}
use openclaw_relay.Gmail.{Mail}
use openclaw_relay.Gmail.Poller.{Poller, new_poller_for_account}

-- The handlers that are registered, with those of `RegisterRoutes`.
pub data Route : Type 0 where
  health trello github default_page api_status : Route
  google_root google_login google_callback google_logout api_auth_status : Route
  list_messages get_message modify_message list_labels get_thread : Route

-- What becomes of the token store: no key or no client id is set, it cannot be opened, or it is there.
pub data OauthSetup : Type 0 where
  unset broken : OauthSetup
  ready : Store → OauthSetup

abbrev opened : Option Store → OauthSetup
opened none = broken
opened (some store) = ready store

-- `key` is the variable RELAY_ENCRYPTION_KEY, and `file` the content of data/tokens.json.enc.
unfoldable pub oauth_setup : Codec → Config → Str → Option Str → OauthSetup
unfolding new_store
oauth_setup c cfg key file =
    if not (key == []) && not (cfg.google.client_id == [])
    then opened (new_store c file key)
    else unset

-- `GoogleAuth.RegisterRoutes`
unfoldable pub google_routes : Map Route
google_routes =
    (codes "/", google_root)
    ∷ (codes "/auth/google/login", google_login)
    ∷ (codes "/auth/google/callback", google_callback)
    ∷ (codes "/auth/logout", google_logout)
    ∷ []

-- `Handler.RegisterRoutes`
unfoldable pub gmail_routes : Map Route
gmail_routes =
    (codes "/api/gmail/messages", list_messages)
    ∷ (codes "/api/gmail/message/", get_message)
    ∷ (codes "/api/gmail/modify/", modify_message)
    ∷ (codes "/api/gmail/labels", list_labels)
    ∷ (codes "/api/gmail/threads/", get_thread)
    ∷ []

unfoldable pub has_gmail : Config → Bool
unfolding resolved_accounts
has_gmail cfg = cfg.gmail.enabled && ltb 0 (length (resolved_accounts cfg.gmail))

unfoldable pub oauth_routes : Config → OauthSetup → Map Route
unfolding google_routes gmail_routes has_gmail
oauth_routes cfg unset = (codes "/", default_page) ∷ []
oauth_routes cfg broken = []
oauth_routes cfg (ready _) =
    google_routes
    ++ (codes "/api/auth/status", api_auth_status) ∷ (if has_gmail cfg then gmail_routes else [])

unfoldable pub routes : Config → OauthSetup → Map Route
unfolding oauth_routes
routes cfg setup =
    (codes "/health", health)
    ∷ (codes "/webhook/trello", trello)
    ∷ (codes "/webhook/github", github)
    ∷ (oauth_routes cfg setup ++ (codes "/api/status", api_status) ∷ [])

abbrev auth_of : Config → Str → OauthSetup → Option GoogleAuth
auth_of cfg key unset = none
auth_of cfg key broken = none
auth_of cfg key (ready store) = some (new_google_auth cfg.google store key)

-- The pollers that are started, one for each account.
unfoldable pub pollers : Mail → Config → OauthSetup → List Poller
unfolding resolved_accounts new_poller_for_account
pollers m cfg unset = []
pollers m cfg broken = []
pollers m cfg (ready _) =
    if cfg.gmail.enabled
    then map
        (λ acc. new_poller_for_account m acc.email acc.poll_interval acc.rules cfg.gmail.auth_alert)
        (resolved_accounts cfg.gmail)
    else []

-- What requests change: the limiter, the login with its token store, the calls of the gateway client so
-- far, and the lines of the audit log.
pub record Server : Type 0 where
  pub limiter : Limiter
  pub google : Option GoogleAuth
  pub jobs : List Call
  pub log : List Entry

-- What does not change while the server runs; `audited` says whether the audit log could be opened.
pub record Site : Type 0 where
  pub cfg : Config
  pub table : Map Route
  pub gateway : Client
  pub audited : Bool

-- `Run` up to the start of the server: the error of the configuration, or what is set up.
unfoldable pub run :
    Codec → Mail → Config → Str → Option Str → Bool → ConfigError ⊎ (Site × Server × List Poller)
unfolding validate oauth_setup routes pollers new new_client
run c m cfg key file audited = elim (validate cfg) [
  | some err ↦ inl err
  | none ↦
      let setup = oauth_setup c cfg key file in
      inr (
        record {
          cfg = cfg;
          table = routes cfg setup;
          gateway =
              new_client cfg.gateway.url cfg.gateway.token cfg.gateway.agent_id cfg.gateway.model;
          audited = audited;
        },
        record { limiter = new 300000000000; google = auth_of cfg key setup; jobs = []; log = [] },
        pollers m cfg setup,
      )
]
