-- ===== src/Lib.antt =====
-- Verification of openclaw-relay, a relay that turns webhooks and new mail into jobs of an agent gateway.
--
-- The parts. A webhook handler checks the signature of a request, makes an event of its payload, asks
-- the rate limiter about a key of the event, and gives the gateway client a job, by the rules of the
-- configuration. A poller asks Gmail for new messages, and does the same by its own rules, through the
-- Gmail client, which takes its tokens from the token store. The store is filled by the Google login,
-- which also gives the sessions. The HTTP API shows the mail to whoever has the token of the relay. The
-- server puts the handlers behind one mux, the token check and the audit log.
--
-- Which file models what, with paths from the root of the repository:
-- - Base and its child modules: Go's strings as lists of bytes, maps, int, and the functions of package
--   strings, strconv and unicode that the code calls; Encoding: hex and base64; Http: requests and
--   responses, as far as the handlers read and write them.
-- - RateLimit: internal/ratelimit/limiter.go. `Allow` and a round of `cleanup` are functions on the map;
--   `Step` interleaves them.
-- - Config: internal/config/config.go. Config.Env is envSubst, Config.Load is Load.
-- - Gateway: internal/gateway/client.go. CreateOneShotJobForAgent is a run: its requests, its pauses and
--   its result.
-- - Webhook.Trello: internal/webhook/trello.go; Webhook.GitHub: internal/webhook/github.go. ServeHTTP is
--   `serve_http`, from the request and the limiter to the response, the limiter and the calls of the
--   gateway client. Webhook.Signature has the two checks of signatures.
-- - Gmail.Poller and Gmail.Poll: internal/gmail/poller.go; `poll` is one poll, from the poller and its
--   state file to the poller, the file and the calls of the gateway client. Gmail.Client:
--   internal/gmail/client.go. Gmail.Handler: internal/gmail/handler.go. Gmail.Poll.Loop is the loop of
--   Start, a poll for each tick.
-- - Tokens: internal/tokens/store.go; a store has its file as a field.
-- - Audit: internal/audit/audit.go. Audit.Logger is the logger, with its file as a field; Json has what
--   encoding/json writes for strings, and Json.Reader and Audit.Reader read it back.
-- - Auth: internal/auth/session.go and internal/auth/middleware.go. Auth.Google: the handlers of
--   internal/auth/google.go; Auth.Pages and Auth.Dashboard: the text of its pages.
-- - Server: internal/server/server.go. `run` is Run up to the start of the listener: the error of the
--   configuration, or the routes, the pollers and the state. Server.Handlers: `serve` takes a request
--   through the audit log, the token check, the mux and its handler, each of which is the function of the
--   module above that models it; `serve_all` takes requests one after the other. Mux: http.ServeMux for
--   the patterns that are used.
-- The files below these state and prove what holds of them; those whose names end in Tests have runs at
-- fixed inputs.
--
-- How state, time and errors are modelled. State is passed on explicitly. The clock, the random source,
-- and the order in which Go ranges over a map are arguments; an order is any listing of the map's
-- entries, each once. A mutex makes what it guards one step. A context is the number of the times that
-- it is still found open. An error is a value; where the code only logs it, it is gone.
--
-- Parameters. Code that is not of the repository is an argument of the definitions: HMAC, AES-GCM, the
-- decoding of JSON and YAML, text/template, time.ParseDuration, Unicode's lower case and folding, the
-- decoder of RFC 2047, base64 for URLs, the HTTP transport, the file system, OAuth and the Gmail API.
-- A theorem names what it asks of them; most ask nothing.
--
-- Bounds and fuel. Times, sizes and history ids are natural numbers: the code only compares them, and
-- the sum of a time and a ttl stays far below 2^63. An int is an integer without a bound, as the code
-- only stores, compares and prints it. The retries of the gateway client recur on the list of pauses
-- that are left. The pages of Gmail's history run on fuel, since the service alone decides when they
-- end: fuel for the number of pages is enough. Printing a number n runs on n + 1
-- steps of fuel, and each digit divides what is left by ten.
--
-- Not modelled: logging, the attributes of the cookie but its value, JSON as text but in the audit log,
-- percent escapes in the path of a request, and in internal/server and cmd/relay the flags, the
-- listener, signals and shut-down. These are input and output. Requests that run at the same time are
-- taken one after the other, as the limiter and the stores lock their state. A request to the Gmail API of
-- the relay gets what its client answers, and leaves the token store as the client's getService does. The
-- pollers, which renew tokens in the same way, are not among the requests of Server. The error of
-- json.Marshal for the tokens is not modelled, as `marshal` is total. In a store of tokens a pointer is its value, as each token has
-- one owner.
pub mod Base
pub mod Mux
pub mod Server
pub mod Audit
pub mod Tokens
pub mod Auth
pub mod RateLimit
pub mod Config
pub mod Gateway
pub mod Gmail
pub mod Encoding
pub mod Http
pub mod Json
pub mod Webhook
pub mod Samples
