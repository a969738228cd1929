-- ===== src/Webhook/Trello/ReplayTests.antt =====
-- Two requests in a row to the Trello handler of internal/webhook/trello.go, each of which makes a job.
use openclaw_relay.Base.{◌+◌, ◌<◌, ◌≡◌, inr, refl, true, some, [], ◌∷◌, ◌++◌, arith, length}
use openclaw_relay.Base.Str.{◌==◌, codes, contains}
use openclaw_relay.Base.Map.{Ranges, insert, lookup}
use openclaw_relay.Base.Space.{trim_space}
use openclaw_relay.Base.Index.{index_byte, last_index_byte}
use openclaw_relay.Encoding.{base64_encode}
use openclaw_relay.Http.{Request, header}
use openclaw_relay.RateLimit.{new, allow, is_recent, Timed, here, max_entries}
use openclaw_relay.RateLimit.Invariant.{IsValid}
use openclaw_relay.Config.{list_id_to_name}
use openclaw_relay.Samples.{sample_config, ready_rule}
use openclaw_relay.Webhook.{TrelloPayload, Readings}
use openclaw_relay.Webhook.Signature.{verify_trello_signature}
use openclaw_relay.Webhook.Trello.{
  match_condition, serve_http, receive, dispatch, job_call, rate_limit_key, event_type, find_rule,
  is_forbidden,
}
use openclaw_relay.Webhook.Trello.Events.{
  IsGenuine, IsEvent, event_type_sound, IsFirstRule, find_rule_sound,
}
use openclaw_relay.Webhook.Trello.Jobs.{IsDispatch}
use openclaw_relay.Webhook.Trello.Replay.{serve_http_replay_trello}
use openclaw_relay.Webhook.Trello.Samples.{moved, platform, signed, start, readings}

pub moved-IsEvent : IsEvent sample_config sample_config.trello.lists moved (codes "card_moved")
unfolding event_type codes ◌==◌ list_id_to_name
moved-IsEvent =
    event_type_sound sample_config sample_config.trello.lists moved (codes "card_moved") refl

genuine : IsGenuine platform sample_config signed (codes "b")
unfolding header lookup codes ◌==◌
genuine = inr refl

pub rule_applies :
    IsFirstRule
      (codes "card_moved")
      (list_id_to_name readings.lists_again moved.list_after_id)
      sample_config.trello.rules
      ready_rule
unfolding find_rule match_condition codes ◌==◌ contains trim_space index_byte last_index_byte
    list_id_to_name
rule_applies =
    find_rule_sound sample_config.trello.rules (codes "card_moved")
      (list_id_to_name readings.lists_again moved.list_after_id) ready_rule refl

pub decoded : platform.decode_trello (codes "b") ≡ some moved
unfolding codes ◌==◌
decoded = refl

pub passes :
    (allow readings.seen readings.since readings.now (rate_limit_key moved) start.limiter).1 ≡ true
unfolding allow new is_recent lookup
passes = refl

abbrev first_job :
    IsDispatch platform sample_config readings start.limiter signed
      (job_call platform moved (codes "card_moved") ready_rule)
first_job = record {
  body = codes "b";
  payload = moved;
  event = codes "card_moved";
  rule = ready_rule;
  posted = refl;
  readable = refl;
  genuine = genuine;
  decoded = decoded;
  kind = moved-IsEvent;
  allowed = passes;
  ruled = rule_applies;
  same = refl;
}

-- a second request, one nanosecond later and for another card
abbrev pub other_card : TrelloPayload
other_card = record moved { card_id = codes "C2" }

abbrev second : Request
second = record signed {
  headers =
      (codes "X-Trello-Webhook", base64_encode (codes "s" ++ (codes "c" ++ codes "https://h/p")))
      ∷ [];
  body = some (codes "c");
}

abbrev pub readings_after : Readings
readings_after = record readings { seen = []; since = 8; now = 8 }

abbrev after_first : Timed
after_first = record {
  limiter = (serve_http platform sample_config readings start.limiter signed).limiter;
  clock = 7;
}

pub decoded_second : platform.decode_trello (codes "c") ≡ some other_card
unfolding codes ◌==◌
decoded_second = refl

IsGenuine-second : IsGenuine platform sample_config second (codes "c")
unfolding header lookup codes ◌==◌
IsGenuine-second = inr refl

passes_second :
    (allow readings_after.seen readings_after.since readings_after.now
      (rate_limit_key other_card)
      after_first.limiter).1
    ≡ true
unfolding serve_http receive dispatch is_forbidden verify_trello_signature header lookup codes ◌==◌
    event_type list_id_to_name allow new is_recent find_rule match_condition contains trim_space
    index_byte last_index_byte job_call rate_limit_key base64_encode insert
passes_second = refl

pub other-IsEvent : IsEvent sample_config sample_config.trello.lists other_card (codes "card_moved")
unfolding event_type codes ◌==◌ list_id_to_name
other-IsEvent =
    event_type_sound sample_config sample_config.trello.lists other_card (codes "card_moved") refl

abbrev second_job :
    IsDispatch platform sample_config readings_after after_first.limiter second
      (job_call platform other_card (codes "card_moved") ready_rule)
second_job = record {
  body = codes "c";
  payload = other_card;
  event = codes "card_moved";
  rule = ready_rule;
  posted = refl;
  readable = refl;
  genuine = IsGenuine-second;
  decoded = decoded_second;
  kind = other-IsEvent;
  allowed = passes_second;
  ruled = rule_applies;
  same = refl;
}

pub start-IsValid : IsValid start.limiter
unfolding new lookup
start-IsValid = record { unique = tt; unnamed = refl; bounded = omega arith }

pub key-Ranges :
    Ranges readings.seen (insert (rate_limit_key moved) readings.now start.limiter.seen)
unfolding rate_limit_key codes insert new lookup
key-Ranges = record { once = (refl, tt); same = λ k. refl }

pub start_room : length start.limiter.seen < max_entries
unfolding new
start_room = omega arith

pub start_ttl : readings_after.since < readings.now + start.limiter.ttl
unfolding new
start_ttl = omega arith

serve_http_replay_trello_example :
    ¬ ((other_card.card_id ≡ moved.card_id) × (other_card.action_type ≡ moved.action_type))
serve_http_replay_trello_example =
    serve_http_replay_trello platform sample_config sample_config start {t = after_first} readings
      readings_after signed second _ _ first_job start-IsValid (omega arith) (omega arith)
      key-Ranges start_room here tt (omega arith) start_ttl second_job
