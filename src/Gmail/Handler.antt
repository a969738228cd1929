-- ===== src/Gmail/Handler.antt =====
-- The HTTP API of internal/gmail/handler.go over clients whose requests are functions. A handler gives
-- its reply and the call that it makes, if it makes one, with the account of the client that it asks.
pub mod Calls
pub mod Asked
pub mod Limits
use openclaw_relay.Base.{
  ℕ, ◌+◌, ◌-◌, ◌*◌, ◌^◌, ◌≤◌, Bool, true, false, not, ◌&&◌, ◌||◌, Option, none, some, List, [], ◌∷◌,
  ◌++◌, ltb, leb, nat_eq, if◌then◌else◌, inl, inr,
}
use openclaw_relay.Base.Int.{ℤ, pos}
use openclaw_relay.Base.Str.{Str, ◌==◌, codes, trim_prefix}
use openclaw_relay.Base.Map.{Map, lookup}
use openclaw_relay.Http.{Request, query_param}
use openclaw_relay.Gmail.{OrError}
use openclaw_relay.Gmail.Client.{MessageMeta, MessageFull, LabelInfo, ModifyRequest}

-- A client, with the account that it is made for.
pub record GmailClient : Type 0 where
  pub email : Str
  pub list_messages : Str → ℕ → OrError (List MessageMeta)
  pub get_message : Str → OrError MessageFull
  pub modify_message : Str → ModifyRequest → Option Str
  pub list_labels : OrError (List LabelInfo)
  pub get_thread : Str → OrError (List MessageFull)

pub record Handler : Type 0 where
  pub clients : Map GmailClient
  pub default_email : Str

-- The JSON that is sent.
pub data Reply : Type 0 where
  json_error : Str → ℕ → Reply
  messages : List MessageMeta → Reply
  message : MessageFull → Reply
  ok : Reply
  labels : List LabelInfo → Reply
  thread : List MessageFull → Reply

-- A method of a client, with its arguments.
pub data ClientCall : Type 0 where
  list_call : Str → ℕ → ClientCall
  get_call : Str → ClientCall
  modify_call : Str → ModifyRequest → ClientCall
  labels_call : ClientCall
  thread_call : Str → ClientCall

pub record Handled : Type 0 where
  pub reply : Reply
  pub call : Option (Str × ClientCall)

abbrev pub refuse : Str → ℕ → Handled
refuse msg code = record { reply = json_error msg code; call = none }

-- The reply to the answer of a method of the client for the account.
abbrev pub answer : {A : Type 0} → Str × ClientCall → (A → Reply) → OrError A → Handled
answer made show (inl err) = record { reply = json_error err 500; call = some made }
answer made show (inr a) = record { reply = show a; call = some made }

-- `NewMultiHandler`, where `order` is the order of its `range`
unfoldable pub new_multi_handler : Map GmailClient → Map GmailClient → Handler
new_multi_handler [] clients = record { clients = clients; default_email = [] }
new_multi_handler ((email, _) ∷ order) clients = record { clients = clients; default_email = email }

-- `resolveClient`; the client of the default account is there, as a handler is made with one
unfoldable pub resolve_client : Handler → Request → Option GmailClient
unfolding query_param
resolve_client h r =
    let account = query_param r (codes "account") in
    if account == [] then lookup h.default_email h.clients else lookup account h.clients

-- The tests at the head of each handler.
unfoldable pub guard : Str → Handler → Request → (GmailClient → Handled) → Handled
unfolding resolve_client
guard method h r next =
    if not (r.method == method)
    then refuse (codes "method not allowed") 405
    else elim (resolve_client h r) [
      | none ↦ refuse (codes "unknown account") 400
      | some client ↦ next client
    ]

-- `strconv.ParseInt(s, 10, 64)`, if it gives a positive number
unfoldable pub parse_digits : ℕ → Str → Option ℕ
parse_digits n [] = some n
parse_digits n (c ∷ s) =
    if leb b'0' c && leb c b'9' then parse_digits (n * 10 + (c - b'0')) s else none

unfoldable pub parse_unsigned : Str → Option ℕ
unfolding parse_digits
parse_unsigned [] = none
parse_unsigned (c ∷ s) = elim (parse_digits 0 (c ∷ s)) [
  | none ↦ none
  | some n ↦ if ltb 0 n && ltb n (2 ^ 63) then some n else none
]

unfoldable pub parse_positive : Str → Option ℕ
unfolding parse_unsigned
parse_positive [] = none
parse_positive (c ∷ s) = if nat_eq c b'+' then parse_unsigned s else parse_unsigned (c ∷ s)

abbrev pub or_twenty : Option ℕ → ℕ
or_twenty none = 20
or_twenty (some n) = n

unfoldable pub handle_list_messages : Handler → Request → Handled
unfolding guard query_param parse_positive
handle_list_messages h r = guard (codes "GET") h r (λ client.
    let q = query_param r (codes "q") in
    let query = if q == [] then codes "is:unread" else q in
    let max = or_twenty (parse_positive (query_param r (codes "max"))) in
    answer (client.email, list_call query max) messages (client.list_messages query max))

unfoldable pub handle_get_message : Handler → Request → Handled
unfolding guard
handle_get_message h r = guard (codes "GET") h r (λ client.
    let id = trim_prefix r.path (codes "/api/gmail/message/") in
    if id == []
    then refuse (codes "missing message id") 400
    else answer (client.email, get_call id) message (client.get_message id))

abbrev modified : Option Str → Reply
modified none = ok
modified (some err) = json_error err 500

-- The handler of changes behind its guard; `decode` is the JSON decoder of the request's body.
unfoldable pub modify : (Option Str → Option ModifyRequest) → Request → GmailClient → Handled
modify decode r client =
    let id = trim_prefix r.path (codes "/api/gmail/modify/") in
    if id == [] then refuse (codes "missing message id") 400 else elim (decode r.body) [
      | none ↦ refuse (codes "invalid request body") 400
      | some req ↦ record {
        reply = modified (client.modify_message id req);
        call = some (client.email, modify_call id req);
      }
    ]

unfoldable pub handle_modify_message :
    (Option Str → Option ModifyRequest) → Handler → Request → Handled
unfolding guard modify
handle_modify_message decode h r = guard (codes "POST") h r (modify decode r)

unfoldable pub handle_list_labels : Handler → Request → Handled
unfolding guard
handle_list_labels h r =
    guard (codes "GET") h r (λ client. answer (client.email, labels_call) labels client.list_labels)

unfoldable pub handle_get_thread : Handler → Request → Handled
unfolding guard
handle_get_thread h r = guard (codes "GET") h r (λ client.
    let id = trim_prefix r.path (codes "/api/gmail/threads/") in
    if id == []
    then refuse (codes "missing thread id") 400
    else answer (client.email, thread_call id) thread (client.get_thread id))

-- `NewHandler`
unfoldable pub new_handler : GmailClient → Handler
new_handler client = record {
  clients = (codes "default", client) ∷ [];
  default_email = codes "default";
}
