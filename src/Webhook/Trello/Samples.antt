-- ===== src/Webhook/Trello/Samples.antt =====
-- Inputs for the runs of the Trello handler of internal/webhook/trello.go.
use openclaw_relay.Base.{if◌then◌else◌, some, [], ◌∷◌, ◌++◌}
use openclaw_relay.Base.Int.{pos}
use openclaw_relay.Base.Str.{Str, ◌==◌, codes}
use openclaw_relay.Encoding.{base64_encode}
use openclaw_relay.Http.{Request}
use openclaw_relay.RateLimit.{new, Timed}
use openclaw_relay.Gateway.{Call, one_shot_job_for_agent}
use openclaw_relay.Samples.{sample_config}
use openclaw_relay.Webhook.{TrelloPayload, Platform, Readings}

abbrev pub moved : TrelloPayload
moved = record {
  action_type = codes "updateCard";
  card_id = codes "C1";
  card_name = codes "Fix it";
  list_after_id = codes "L1";
  list_after_name = codes "Ready";
  list_before_name = codes "Todo";
  member_id = codes "m";
  member_username = codes "ann";
}

abbrev pub platform : Platform
platform = record {
  hmac_sha1 = λ key data_. key ++ data_;
  hmac_sha256 = λ key data_. key ++ data_;
  render = λ template values. some (codes "Card Fix it");
  decode_trello =
      λ body. some (if body == codes "b" then moved else record moved { card_id = codes "C2" });
  decode_github = λ body. record {
    action = [];
    full_name = [];
    pr_number = pos 0;
    pr_title = [];
    check_conclusion = [];
    check_prs = [];
    workflow_conclusion = [];
    workflow_prs = [];
  };
}

abbrev pub signed : Request
signed = record {
  method = codes "POST";
  host = codes "h";
  path = codes "/p";
  query = [];
  headers =
      (codes "X-Trello-Webhook", base64_encode (codes "s" ++ (codes "b" ++ codes "https://h/p")))
      ∷ [];
  cookies = [];
  remote_addr = [];
  body = some (codes "b");
}

abbrev pub start : Timed
start = record { limiter = new 300; clock = 0 }

abbrev pub key : Str
key = codes "trello:C1:updateCard"

abbrev pub readings : Readings
readings = record {
  lists = sample_config.trello.lists;
  lists_again = sample_config.trello.lists;
  seen = (key, 7) ∷ [];
  since = 7;
  now = 7;
}

abbrev pub call : Call
call =
    one_shot_job_for_agent (codes "card_moved: Fix it") (codes "Card Fix it") (codes "builder")
      (pos 300) (pos 2)
