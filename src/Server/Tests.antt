-- ===== src/Server/Tests.antt =====
-- Requests to a server, and the theorems at concrete inputs.
use openclaw_relay.Base.{
  inl, inr, ◌*◌, ◌≤◌, ◌≡◌, ◌≢◌, refl, true, none, List, [], ◌∷◌, ◌++◌, All, if◌then◌else◌,
}
use openclaw_relay.Base.Str.{◌==◌, codes, ne_of_test}
use openclaw_relay.Base.Map.{lookup}
use openclaw_relay.Encoding.{base64_encode}
use openclaw_relay.Http.{Request, header, http_error}
use openclaw_relay.RateLimit.{new}
use openclaw_relay.Gateway.{Call, new_client}
use openclaw_relay.Samples.{sample_config}
use openclaw_relay.Webhook.Trello.Samples.{platform, signed, readings, call}
use openclaw_relay.Webhook.Trello
use openclaw_relay.Webhook.Signature.{verify_trello_signature}
use openclaw_relay.RateLimit.{allow, is_recent}
use openclaw_relay.Config.{list_id_to_name}
use openclaw_relay.Base.Str.{contains, has_prefix}
use openclaw_relay.Base.Space.{trim_space}
use openclaw_relay.Base.Index.{index_byte, last_index_byte}
use openclaw_relay.Auth.{secured, middleware, is_public}
use openclaw_relay.Server.{oauth_routes}
use openclaw_relay.Server.Handlers.{logged, dispatch}
use openclaw_relay.Mux.{
  found, route, clean_path, segments, clean_parts, join_parts, ends_in_slash, best_match, matches,
}
use openclaw_relay.Auth.Tests.{oauth, codec, disk}
use openclaw_relay.Server.{Server, Site, unset, routes, api_status}
use openclaw_relay.Server.Handlers.{World, Moment, plain, serve_route, guarded, serve, serve_all}
use openclaw_relay.Server.Routes.{guarded-api}
use openclaw_relay.Server.Traffic.{posts, hooks, serve_all-posts}
use openclaw_relay.Gateway.{no_response}
use openclaw_relay.Server.Jobs.{Makes, serve_all-jobs}

abbrev pub world : World
world = record {
  platform = platform;
  codec = codec;
  decode_modify = λ body. none;
  split_host = λ s. none;
}

abbrev pub site : Site
site = record {
  cfg = sample_config;
  table = routes sample_config unset;
  gateway = new_client (codes "http://gw") (codes "t") [] [];
  audited = true;
}

abbrev pub server : Server
server = record { limiter = new 300; google = none; jobs = []; log = [] }

abbrev pub moment : Moment
moment = record {
  readings = readings;
  oauth = oauth;
  disk = disk;
  rand = [];
  clock = 7;
  gmail = record { clients = []; default_email = [] };
  source = record { refresh = λ token. inr token; new_service = λ token. inl (codes "no service") };
  order = [];
  started = codes "now";
  elapsed = 1;
}

-- a card that is moved
abbrev pub moves : Request
moves = record signed {
  path = codes "/webhook/trello";
  headers =
      (
        codes "X-Trello-Webhook",
        base64_encode (codes "s" ++ (codes "b" ++ codes "https://h/webhook/trello")),
      )
      ∷ [];
}

-- the status, without a token
abbrev pub asks : Request
asks = record signed { method = codes "GET"; path = codes "/api/status"; headers = [] }

abbrev pub requests : List (Moment × Request)
requests = (moment, asks) ∷ (moment, moves) ∷ []

made : (serve_all world site requests server).jobs ≡ call ∷ []
unfolding serve_all serve logged guarded secured middleware dispatch route serve_route lookup codes
    ◌==◌ header routes oauth_routes clean_path segments clean_parts join_parts ends_in_slash
    best_match matches has_prefix is_public Trello.serve_http Trello.receive Trello.dispatch
    Trello.is_forbidden verify_trello_signature Trello.event_type list_id_to_name allow new
    is_recent Trello.find_rule Trello.match_condition contains trim_space index_byte last_index_byte
    Trello.job_call Trello.rate_limit_key base64_encode
made = refl

pub status_found : route site.table asks ≡ found api_status
unfolding route routes oauth_routes lookup codes ◌==◌ clean_path segments clean_parts join_parts
    ends_in_slash best_match matches has_prefix
status_found = refl

token_set : sample_config.server.internal_token ≢ []
token_set = ne_of_test sample_config.server.internal_token [] (unfold codes ◌==◌ in refl)

guarded-api_example : guarded world site moment asks server ≡ (
    if header asks (codes "X-Relay-Token") == sample_config.server.internal_token
    then serve_route world sample_config moment api_status asks server
    else (server, plain (http_error (codes "{\"error\":\"unauthorized\"}") 401)))
unfolding has_prefix
guarded-api_example =
    guarded-api world site unset moment asks server api_status refl token_set status_found
      (unfold codes in refl)

serve_all-jobs_example :
    (jobs : List Call) × ((serve_all world site requests server).jobs ≡ [] ++ jobs)
    × All (Makes world sample_config requests) jobs
serve_all-jobs_example = serve_all-jobs world site unset refl requests server

serve_all-posts_example :
    posts
      (λ job n. no_response)
      (λ delay. codes "later")
      site.gateway
      0
      (serve_all world site requests server).jobs
    ≤ 4 * hooks requests
serve_all-posts_example =
    serve_all-posts world site unset refl requests server (λ job n. no_response)
      (λ delay. codes "later") site.gateway refl
