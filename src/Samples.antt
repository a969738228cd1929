-- ===== src/Samples.antt =====
-- A configuration for the tests.
use openclaw_relay.Base.{none, [], ◌∷◌, true}
use openclaw_relay.Base.Int.{pos}
use openclaw_relay.Base.Str.{codes}
use openclaw_relay.Config.{Config, TrelloRule}

abbrev pub ready_rule : TrelloRule
ready_rule = record {
  event = codes "card_moved";
  condition = codes "list == 'ready'";
  action = record {
    kind = codes "cron";
    timeout = pos 300;
    delay = pos 0;
    agent_id = codes "builder";
    message_template = codes "Card {{.CardName}}";
  };
}

abbrev pub sample_config : Config
sample_config = record {
  server = record { port = pos 0; internal_token = codes "secret" };
  gateway = record { url = codes "http://gw"; token = codes "t"; agent_id = []; model = [] };
  trello = record {
    secret = codes "s";
    lists = (codes "ready", codes "L1") ∷ (codes "questions", codes "L2") ∷ [];
    ignore_members = codes "bot" ∷ [];
    rules = ready_rule ∷ [];
  };
  github = record {
    secret = codes "g";
    notify_mode = codes "failures";
    message_template = [];
    agent_id = codes "reviewer";
    timeout = pos 0;
    delay = pos 0;
  };
  google = record {
    client_id = [];
    client_secret = [];
    redirect_url = [];
    allowed_emails = codes "me@x.org" ∷ [];
  };
  gmail = record {
    enabled = true;
    poll_interval = codes "60s";
    accounts = record { email = codes "me@x.org"; poll_interval = []; rules = [] } ∷ [];
    auth_alert = none;
  };
  audit = record { log_path = [] };
}
