-- ===== src/Server/ReplayTests.antt =====
-- Two cards that are moved, with a request for the status in between.
use mathlib.Core.Option.{none-ne-some}
use openclaw_relay.Base.{◌∙◌, ◌≡◌, inr, refl, sym, ap, true, none, some, List, [], ◌∷◌, ◌++◌, arith}
use openclaw_relay.Base.Str.{◌==◌, codes, contains, has_prefix}
use openclaw_relay.Base.Map.{insert, lookup}
use openclaw_relay.Base.Space.{trim_space}
use openclaw_relay.Base.Index.{index_byte, last_index_byte}
use openclaw_relay.Encoding.{base64_encode}
use openclaw_relay.Http.{Request, header}
use openclaw_relay.RateLimit.{Limiter, new, allow, is_recent}
use openclaw_relay.Config.{list_id_to_name}
use openclaw_relay.Samples.{sample_config, ready_rule}
use openclaw_relay.Webhook.Signature.{verify_trello_signature}
use openclaw_relay.Webhook.Trello
use openclaw_relay.Webhook.Trello.Events.{IsGenuine}
use openclaw_relay.Webhook.Trello.Jobs.{IsDispatch}
use openclaw_relay.Webhook.Trello.Samples.{platform, signed, readings}
use openclaw_relay.Webhook.Trello.Samples
use openclaw_relay.Webhook.Trello.ReplayTests
use openclaw_relay.Auth.{secured, middleware, is_public}
use openclaw_relay.Mux.{
  found, route, clean_path, segments, clean_parts, join_parts, ends_in_slash, best_match, matches,
}
use openclaw_relay.Server.{unset, trello, routes, oauth_routes}
use openclaw_relay.Server.Handlers.{
  Moment, serve, serve_all, serve_route, guarded, logged, dispatch,
}
use openclaw_relay.Server.Tests.{world, site, server, moment, moves, asks, status_found}
use openclaw_relay.Server.Limits.{asked_key}
use openclaw_relay.Server.Replay.{AreTimely, serve_all_replay}

trello_found : route site.table moves ≡ found trello
unfolding route routes oauth_routes lookup codes ◌==◌ clean_path segments clean_parts join_parts
    ends_in_slash best_match matches has_prefix
trello_found = refl

genuine : IsGenuine platform sample_config moves (codes "b")
unfolding header lookup codes ◌==◌
genuine = inr refl

abbrev first_job :
    IsDispatch platform sample_config readings server.limiter moves
      (Trello.job_call platform Samples.moved (codes "card_moved") ready_rule)
first_job = record {
  body = codes "b";
  payload = Samples.moved;
  event = codes "card_moved";
  rule = ready_rule;
  posted = refl;
  readable = refl;
  genuine = genuine;
  decoded = ReplayTests.decoded;
  kind = ReplayTests.moved-IsEvent;
  allowed = ReplayTests.passes;
  ruled = ReplayTests.rule_applies;
  same = refl;
}

-- a second request, one nanosecond later and for another card
abbrev moves_other : Request
moves_other = record moves {
  headers =
      (
        codes "X-Trello-Webhook",
        base64_encode (codes "s" ++ (codes "c" ++ codes "https://h/webhook/trello")),
      )
      ∷ [];
  body = some (codes "c");
}

abbrev moment_after : Moment
moment_after = record moment { readings = ReplayTests.readings_after }

abbrev between : List (Moment × Request)
between = (moment, asks) ∷ []

IsGenuine-moves_other : IsGenuine platform sample_config moves_other (codes "c")
unfolding header lookup codes ◌==◌
IsGenuine-moves_other = inr refl

abbrev limiter_after : Limiter
limiter_after = (serve_all world site between (serve world site moment moves server).0).limiter

left : limiter_after ≡ record { ttl = 300; seen = (Samples.key, 7) ∷ [] }
unfolding serve_all serve logged guarded secured middleware dispatch route serve_route lookup codes
    ◌==◌ header routes oauth_routes clean_path segments clean_parts join_parts ends_in_slash
    best_match matches has_prefix is_public Trello.serve_http Trello.receive Trello.dispatch
    Trello.is_forbidden verify_trello_signature Trello.event_type list_id_to_name allow new
    is_recent Trello.find_rule Trello.match_condition contains trim_space index_byte last_index_byte
    Trello.job_call Trello.rate_limit_key base64_encode insert
left = refl

passes_other :
    (allow ReplayTests.readings_after.seen ReplayTests.readings_after.since
      ReplayTests.readings_after.now
      (Trello.rate_limit_key ReplayTests.other_card)
      limiter_after).1
    ≡ true
passes_other =
    ap
      (λ l.
        (allow ReplayTests.readings_after.seen ReplayTests.readings_after.since
          ReplayTests.readings_after.now (Trello.rate_limit_key ReplayTests.other_card) l).1)
      left
    ∙ unfold allow is_recent lookup Trello.rate_limit_key codes ◌==◌ in refl

abbrev second_job :
    IsDispatch platform sample_config ReplayTests.readings_after limiter_after moves_other
      (Trello.job_call platform ReplayTests.other_card (codes "card_moved") ready_rule)
second_job = record {
  body = codes "c";
  payload = ReplayTests.other_card;
  event = codes "card_moved";
  rule = ready_rule;
  posted = refl;
  readable = refl;
  genuine = IsGenuine-moves_other;
  decoded = ReplayTests.decoded_second;
  kind = ReplayTests.other-IsEvent;
  allowed = passes_other;
  ruled = ReplayTests.rule_applies;
  same = refl;
}

after_first :
    (serve world site moment moves server).0.limiter
    ≡ record { ttl = 300; seen = (Samples.key, 7) ∷ [] }
unfolding serve logged guarded secured middleware dispatch route serve_route lookup codes ◌==◌
    header routes oauth_routes clean_path segments clean_parts join_parts ends_in_slash best_match
    matches has_prefix is_public Trello.serve_http Trello.receive Trello.dispatch
    Trello.is_forbidden verify_trello_signature Trello.event_type list_id_to_name allow new
    is_recent Trello.find_rule Trello.match_condition contains trim_space index_byte last_index_byte
    Trello.job_call Trello.rate_limit_key base64_encode insert
after_first = refl

unasked : (l : Limiter) → asked_key world site moment asks l ≡ none
unasked l = rw (status_found, asked_key) refl

timely : AreTimely world site 7 between (serve world site moment moves server).0
timely = (
  record {
    later = omega arith;
    ordered = omega arith;
    lists = λ k asked.
        absurd
          (none-ne-some k (sym (unasked (serve world site moment moves server).0.limiter) ∙ asked));
    room = rw (after_first) (omega arith);
  },
  tt,
)

serve_all_replay_example : ¬ (
    (ReplayTests.other_card.card_id ≡ Samples.moved.card_id)
    × (ReplayTests.other_card.action_type ≡ Samples.moved.action_type))
serve_all_replay_example =
    serve_all_replay world site unset server 0 moment moment_after moves moves_other _ _ between
      refl trello_found ReplayTests.start-IsValid first_job (omega arith) (omega arith)
      ReplayTests.key-Ranges ReplayTests.start_room timely (omega arith) ReplayTests.start_ttl
      second_job
