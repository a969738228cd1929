-- ===== src/Server/Handlers.antt =====
-- What a request to the server of internal/server/server.go does, from the mux to the audit log. The
-- server takes requests one after the other; the limiter and the stores guard their own state.
use openclaw_relay.Base.{ℕ, Bool, not, Option, none, some, List, [], ◌∷◌, ◌++◌, if◌then◌else◌}
use openclaw_relay.Base.Str.{Str, ◌==◌, codes}
use openclaw_relay.Base.Map.{Map}
use openclaw_relay.Http.{Request, Response}
use openclaw_relay.Mux.{found, moved, missing, route}
use openclaw_relay.Config.{Config}
use openclaw_relay.Tokens.{Codec, Disk, GoogleToken}
use openclaw_relay.Audit.{write_header, middleware}
use openclaw_relay.Auth.{secured}
use openclaw_relay.Auth.Google.{
  GoogleAuth, Oauth, Reply, error, not_found, redirect, login_page, dashboard, access_denied,
  handle_root, handle_login, handle_callback, handle_logout, auth_status,
}
use openclaw_relay.Gmail.Client.{ModifyRequest}
use openclaw_relay.Gmail.Client.Requests.{TokenSource, get_service}
use openclaw_relay.Gmail.Handler.{
  Handler, ClientCall, json_error, messages, message, ok, labels, thread, handle_list_messages,
  handle_get_message, handle_modify_message, handle_list_labels, handle_get_thread,
}
use openclaw_relay.Gmail.Handler
use openclaw_relay.Webhook.{Platform, Readings, Served}
use openclaw_relay.Webhook.Trello
use openclaw_relay.Webhook.GitHub
use openclaw_relay.Server.{
  Server, Site, Route, health, trello, github, default_page, api_status, google_login,
  google_callback, google_logout, api_auth_status, list_messages, get_message, modify_message,
  list_labels, get_thread,
}

-- The code that the handlers call and that is not of the repository.
pub record World : Type 0 where
  pub platform : Platform
  pub codec : Codec
  pub decode_modify : Option Str → Option ModifyRequest
  pub split_host : Str → Option Str

-- What one request reads: the limiter's readings, Google and the disk, the random source, the clock, the
-- clients of Gmail as they answer, the OAuth library behind them, the order of a range over the tokens, and the times of the audit log.
pub record Moment : Type 0 where
  pub readings : Readings
  pub oauth : Oauth
  pub disk : Disk
  pub rand : Str
  pub clock : ℕ
  pub gmail : Handler
  pub source : TokenSource
  pub order : Map GoogleToken
  pub started : Str
  pub elapsed : ℕ

-- The answer to a request.
pub data Answer : Type 0 where
  plain : Response → Answer
  login : Reply → Answer
  statuses : Bool × List (Str × ℕ) → Answer
  mail : Handler.Reply → Answer
  moved_to : Str → Answer
  page not_there : Answer

unfoldable pub reply_status : Reply → ℕ
reply_status (error _ code) = code
reply_status not_found = 404
reply_status (redirect _ _) = 307
reply_status (login_page _) = 200
reply_status (dashboard _) = 200
reply_status (access_denied _) = 403

unfoldable pub mail_status : Handler.Reply → ℕ
mail_status (json_error _ code) = code
mail_status (messages _) = 200
mail_status (message _) = 200
mail_status ok = 200
mail_status (labels _) = 200
mail_status (thread _) = 200

unfoldable pub answer_status : Answer → ℕ
unfolding reply_status mail_status
answer_status (plain response) = response.status
answer_status (login reply) = reply_status reply
answer_status (statuses _) = 200
answer_status (mail reply) = mail_status reply
answer_status (moved_to _) = 301
answer_status page = 200
answer_status not_there = 404

abbrev pub Handled : Type 0
Handled = Server × Answer

-- The limiter and the calls that a webhook leaves.
abbrev pub after_webhook : Server → Served → Handled
after_webhook s served =
    (record s { limiter = served.limiter; jobs = s.jobs ++ served.calls }, plain served.response)

-- The login that a handler leaves; its routes are registered only if there is one.
abbrev pub after_login : Server → (GoogleAuth → GoogleAuth × Reply) → Handled
after_login s handler = elim s.google [
  | none ↦ (s, not_there)
  | some g ↦ (record s { google = some ((handler g).0) }, login ((handler g).1))
]

module _ (u : World) where
  -- Each method of a client gets its service first, and with it a token that may be a new one.
  unfoldable pub renew : Moment → Option (Str × ClientCall) → Option GoogleAuth → Option GoogleAuth
  unfolding get_service
  renew w none google = google
  renew w (some call) none = none
  renew w (some (email, call)) (some g) =
      some (record g { store = (get_service u.codec w.disk w.source email g.store).0 })

  -- The token store that a request to the API of Gmail leaves, and its reply.
  abbrev pub after_mail : Moment → Server → Handler.Handled → Handled
  after_mail w s handled = (record s { google = renew w handled.call s.google }, mail handled.reply)

  unfoldable pub handle_google : Moment → Route → Request → GoogleAuth → GoogleAuth × Reply
  unfolding handle_root handle_login handle_callback handle_logout
  handle_google w google_login r g = handle_login u.platform.hmac_sha256 w.oauth w.rand w.clock g r
  handle_google w google_callback r g =
      handle_callback u.platform.hmac_sha256 u.codec w.disk w.oauth w.clock g r
  handle_google w google_logout r g = handle_logout u.codec w.disk g r
  handle_google w _ r g = (g, handle_root u.platform.hmac_sha256 g r)

  -- The handler of a route.
  unfoldable pub serve_route : Config → Moment → Route → Request → Server → Handled
  unfolding handle_google auth_status renew
  serve_route cfg w health r s =
      (s, plain (record { status = 200; body = codes "{\"status\":\"ok\"}" }))
  serve_route cfg w trello r s =
      after_webhook s (Trello.serve_http u.platform cfg w.readings s.limiter r)
  serve_route cfg w github r s =
      after_webhook s (GitHub.serve_http u.platform cfg w.readings s.limiter r)
  serve_route cfg w default_page r s = (s, if not (r.path == codes "/") then not_there else page)
  serve_route cfg w api_status r s = (
    s,
    plain (record {
      status = 200;
      body = codes "{\"status\":\"ok\",\"service\":\"openclaw-relay\"}";
    }),
  )
  serve_route cfg w api_auth_status r s = (s, statuses (auth_status w.order))
  serve_route cfg w list_messages r s = after_mail w s (handle_list_messages w.gmail r)
  serve_route cfg w get_message r s = after_mail w s (handle_get_message w.gmail r)
  serve_route cfg w modify_message r s =
      after_mail w s (handle_modify_message u.decode_modify w.gmail r)
  serve_route cfg w list_labels r s = after_mail w s (handle_list_labels w.gmail r)
  serve_route cfg w get_thread r s = after_mail w s (handle_get_thread w.gmail r)
  serve_route cfg w at r s = after_login s (handle_google w at r)

  -- The mux over its handlers.
  unfoldable pub dispatch : Site → Moment → Request → Server → Handled
  unfolding route serve_route
  dispatch site w r s = elim (route site.table r) [
    | found at ↦ serve_route site.cfg w at r s
    | moved path ↦ (s, moved_to path)
    | missing ↦ (s, not_there)
  ]

  -- The mux behind the token check.
  unfoldable pub guarded : Site → Moment → Request → Server → Handled
  unfolding secured dispatch
  guarded site w = secured (λ response s. (s, plain response)) site.cfg (dispatch site w)

  -- The line that the audit log gets for the answer, if there is a log.
  unfoldable pub logged : Site → Moment → Request → Handled → Handled
  unfolding middleware answer_status
  logged site w r (s, answer) =
      if site.audited
      then (
        record s {
          log =
              s.log
              ++ middleware u.split_host w.started w.elapsed r
                  (write_header (answer_status answer) ∷ [])
                ∷ [];
        },
        answer,
      )
      else (s, answer)

  -- The handler of the server.
  unfoldable pub serve : Site → Moment → Request → Server → Handled
  unfolding guarded logged
  serve site w r s = logged site w r (guarded site w r s)

  -- Requests one after the other.
  unfoldable pub serve_all : Site → List (Moment × Request) → Server → Server
  unfolding serve
  serve_all site [] s = s
  serve_all site ((w, r) ∷ requests) s = serve_all site requests (serve site w r s).0
