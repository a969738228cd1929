-- ===== src/Config/Load.antt =====
-- `Load`: substitution, decoding and defaults. Reading the file and decoding YAML are arguments.
use mathlib.Core.Path.{subst}
use mathlib.Core.Option.{some-injective}
use openclaw_relay.Base.{
  ◌≡◌, ◌≢◌, false, Option, none, some, [], arith, if◌then◌else◌, refl, Option-cases, inl, inr,
}
use openclaw_relay.Base.Int.{pos, is_zero}
use openclaw_relay.Base.Str.{Str, ◌==◌, codes, eq_iff}
use openclaw_relay.Config.{Config}
use openclaw_relay.Config.Env.{env_subst}

unfoldable pub with_defaults : Config → Config
with_defaults c = record c {
  server = record (c.server) { port = if is_zero c.server.port then pos 8080 else c.server.port };
  gateway = record (c.gateway) {
    agent_id = if c.gateway.agent_id == [] then codes "main" else c.gateway.agent_id;
  };
  audit = record (c.audit) {
    log_path = if c.audit.log_path == [] then codes "data/audit.log" else c.audit.log_path;
  };
}

-- `file` is the outcome of `os.ReadFile`, `unmarshal` is `yaml.Unmarshal`; an error is `none`.
unfoldable pub load : (Str → Str) → (Str → Option Config) → Option Str → Option Config
load getenv unmarshal none = none
load getenv unmarshal (some text) = elim (unmarshal (env_subst getenv text)) [
  | none ↦ none
  | some cfg ↦ some (with_defaults cfg)
]

-- What `load` leaves of the decoded configuration `d`, and what it guarantees.
pub record IsLoaded (d c : Config) : Type 0 where
  pub port_set : is_zero c.server.port ≡ false
  pub agent_set : c.gateway.agent_id ≢ []
  pub log_set : c.audit.log_path ≢ []
  pub port_kept : is_zero d.server.port ≡ false → c.server.port ≡ d.server.port
  pub agent_kept : d.gateway.agent_id ≢ [] → c.gateway.agent_id ≡ d.gateway.agent_id
  pub log_kept : d.audit.log_path ≢ [] → c.audit.log_path ≡ d.audit.log_path
  pub token_kept : c.server.internal_token ≡ d.server.internal_token
  pub url_kept : c.gateway.url ≡ d.gateway.url
  pub gateway_token_kept : c.gateway.token ≡ d.gateway.token
  pub trello_kept : c.trello ≡ d.trello
  pub github_kept : c.github ≡ d.github
  pub google_kept : c.google ≡ d.google
  pub gmail_kept : c.gmail ≡ d.gmail

with_defaults-IsLoaded : (d : Config) → IsLoaded d (with_defaults d)
unfolding with_defaults codes
with_defaults-IsLoaded d = record {
  port_set = ground arith;
  agent_set = ground (arith, eq_iff d.gateway.agent_id []);
  log_set = ground (arith, eq_iff d.audit.log_path []);
  port_kept = λ h. ground arith;
  agent_kept = λ h. ground (arith, eq_iff d.gateway.agent_id []);
  log_kept = λ h. ground (arith, eq_iff d.audit.log_path []);
  token_kept = refl;
  url_kept = refl;
  gateway_token_kept = refl;
  trello_kept = refl;
  github_kept = refl;
  google_kept = refl;
  gmail_kept = refl;
}

-- A configuration that `Load` returns was decoded from the substituted text. It has a port, a
-- gateway agent and an audit log path, those decoded if they were there, and is the decoded one
-- in the other parts that `IsLoaded` names.
pub load-IsLoaded :
    (getenv : Str → Str) (unmarshal : Str → Option Config) (text : Str) (c : Config)
    → load getenv unmarshal (some text) ≡ some c
    → (d : Config) × (unmarshal (env_subst getenv text) ≡ some d) × IsLoaded d c
unfolding load
load-IsLoaded getenv unmarshal text c h = elim (Option-cases (unmarshal (env_subst getenv text))) [
  | inl failed ↦ absurd (ground arith)
  | inr (d, decoded) ↦
      let same : with_defaults d ≡ c = some-injective _ _ (rw (decoded, load) at h) in
      (d, decoded, subst (IsLoaded d) same (with_defaults-IsLoaded d))
]
