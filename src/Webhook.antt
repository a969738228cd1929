-- ===== src/Webhook.antt =====
-- The webhook handlers of internal/webhook: what the two share. The clock and the orders in which Go
-- ranges over maps are readings of the world; HMAC, JSON decoding and text/template are the fields
-- of `Platform`, of which nothing is assumed. An error of the gateway client is only logged, so a
-- handler's call of it is an entry of `calls`.
pub mod Signature
pub mod Moves
pub mod Trello
pub mod GitHub
use openclaw_relay.Base.{ℕ, Option, List, [], Bool, true, false, if◌then◌else◌}
use openclaw_relay.Base.Int.{ℤ, pos, is_zero}
use openclaw_relay.Base.Str.{Str, codes}
use openclaw_relay.Base.Map.{Map}
use openclaw_relay.Http.{Response}
use openclaw_relay.RateLimit.{Limiter}
use openclaw_relay.Gateway.{Call}

-- a value that a template prints
pub data Value : Type 0 where
  text : Str → Value
  number : ℤ → Value

pub record TrelloPayload : Type 0 where
  pub action_type : Str
  pub card_id : Str
  pub card_name : Str
  pub list_after_id : Str
  pub list_after_name : Str
  pub list_before_name : Str
  pub member_id : Str
  pub member_username : Str

pub record GitHubPayload : Type 0 where
  pub action : Str
  pub full_name : Str
  pub pr_number : ℤ
  pub pr_title : Str
  pub check_conclusion : Str
  pub check_prs : List ℤ
  pub workflow_conclusion : Str
  pub workflow_prs : List ℤ

-- HMACs take the key and then the data. A template that does not parse or execute gives `none`.
-- Decoding a Trello payload may fail; of a GitHub payload the code takes what is decoded.
pub record Platform : Type 0 where
  pub hmac_sha1 : Str → Str → Str
  pub hmac_sha256 : Str → Str → Str
  pub render : Str → Map Value → Option Str
  pub decode_trello : Str → Option TrelloPayload
  pub decode_github : Str → GitHubPayload

-- What a handler reads of its surroundings: the orders of the two ranges over the lists, the order of
-- a range over the limiter's map, and the clock as `Allow` reads it first and second.
pub record Readings : Type 0 where
  pub lists : Map Str
  pub lists_again : Map Str
  pub seen : Map ℕ
  pub since : ℕ
  pub now : ℕ

-- What a handler leaves: the limiter, the response, and the calls of the gateway client.
pub record Served : Type 0 where
  pub limiter : Limiter
  pub response : Response
  pub calls : List Call

abbrev pub quiet : Limiter → Response → Served
quiet l response = record { limiter = l; response = response; calls = [] }

-- a configured number, or its default where it is 0
abbrev pub or_default : ℤ → ℤ → ℤ
or_default n default = if is_zero n then default else n
