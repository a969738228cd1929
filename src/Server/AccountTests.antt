-- ===== src/Server/AccountTests.antt =====
-- A login at the server that connects an account, and a request for its labels that renews the token.
use openclaw_relay.Base.{inl, inr, ◌≡◌, refl, none, some, List, [], ◌∷◌}
use openclaw_relay.Base.Str.{Str, ◌==◌, codes, has_prefix}
use openclaw_relay.Base.Map.{lookup, insert, delete}
use openclaw_relay.Http.{Request, header, query_param}
use openclaw_relay.Samples.{sample_config}
use openclaw_relay.Config.{is_member, resolved_accounts}
use openclaw_relay.Tokens.{
  OauthToken, GoogleToken, get_google_oauth2_token, get_google, update_google_access_token,
  account_or_first, update_account, refreshed, save, save_google, with_google, encrypt,
}
use openclaw_relay.Auth.{secured, middleware, is_public}
use openclaw_relay.Auth.Google.{
  GoogleAuth, consume_state, is_stale, handle_callback, resume, exchange_code, identify, accept,
}
use openclaw_relay.Auth.Accounts.{connected, token_of}
use openclaw_relay.Auth.Tests.{auth, request, token, me}
use openclaw_relay.Gmail.Handler.{GmailClient, handle_list_labels, guard, resolve_client}
use openclaw_relay.Gmail.Client.Requests.{get_service, keep_fresh}
use openclaw_relay.Mux.{
  route, clean_path, segments, clean_parts, join_parts, ends_in_slash, best_match, matches,
}
use openclaw_relay.Server.{
  Server, Site, ready, routes, oauth_routes, google_routes, gmail_routes, has_gmail,
}
use openclaw_relay.Server.Handlers.{
  Moment, serve, serve_all, serve_route, guarded, logged, dispatch, handle_google, renew,
}
use openclaw_relay.Server.Tests.{world, site, server, moment, asks}
use openclaw_relay.Server.Accounts.{Origin, serve_all-accounts}

abbrev login_site : Site
login_site = record site { table = routes sample_config (ready auth.store) }

abbrev login_server : Server
login_server = record server { google = some auth }

-- a request for the labels, with the token of the relay, when the stored token has run out
abbrev fresh_token : OauthToken
fresh_token = record token { access_token = codes "b"; expiry = 20 }

abbrev client : GmailClient
client = record {
  email = me;
  list_messages = λ q max. inr [];
  get_message = λ id. inl (codes "gone");
  modify_message = λ id req. none;
  list_labels = inr [];
  get_thread = λ id. inr [];
}

abbrev moment_after : Moment
moment_after = record moment {
  gmail = record { clients = (me, client) ∷ []; default_email = me };
  source = record { refresh = λ old. inr fresh_token; new_service = λ new. inl [] };
}

abbrev labels_asked : Request
labels_asked = record asks {
  path = codes "/api/gmail/labels";
  headers = (codes "X-Relay-Token", codes "secret") ∷ [];
}

abbrev requests : List (Moment × Request)
requests = (moment, request) ∷ (moment_after, labels_asked) ∷ []

-- the tokens of the server
abbrev tokens : Server → List (Str × GoogleToken)
tokens s = elim s.google [ none ↦ [] | some g ↦ connected g ]

connects :
    tokens (serve_all world login_site requests login_server) ≡ (me, token_of fresh_token me) ∷ []
unfolding serve_all serve logged guarded secured middleware dispatch route serve_route lookup codes
    ◌==◌ header routes oauth_routes google_routes clean_path segments clean_parts join_parts
    ends_in_slash best_match matches has_prefix is_public handle_google handle_callback resume
    consume_state is_stale exchange_code identify accept query_param is_member save_google save
    encrypt with_google insert delete gmail_routes has_gmail resolved_accounts renew get_service
    get_google_oauth2_token get_google keep_fresh update_google_access_token account_or_first
    update_account refreshed handle_list_labels guard resolve_client
connects = refl

serve_all-accounts_example :
    (g' : GoogleAuth) × ((serve_all world login_site requests login_server).google ≡ some g')
    × (g'.allowed_emails ≡ auth.allowed_emails)
    × ((k : Str) (t : GoogleToken)
        → lookup k (connected g') ≡ some t
        → Origin requests auth.allowed_emails (connected auth) k t)
serve_all-accounts_example =
    serve_all-accounts world login_site (ready auth.store) refl requests login_server auth refl tt
