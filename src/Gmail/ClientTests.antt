-- ===== src/Gmail/ClientTests.antt =====
-- Runs of the Gmail client and its HTTP API, and the theorems at concrete inputs.
use openclaw_relay.Base.{
  List, ℕ, ◌<◌, ◌^◌, ◌≡◌, ◌≢◌, ◌↔◌, refl, true, false, none, some, [], ◌∷◌, map, arith, inl, inr,
  if◌then◌else◌,
}
use openclaw_relay.Base.Str.{Str, ◌==◌, codes, ne_of_test, trim_prefix}
use openclaw_relay.Base.Map.{lookup}
use openclaw_relay.Http.{Request, query_param}
use openclaw_relay.Gmail.Client.{
  Part, part, end, more, Wire, Service, RawMsg, HistoryPage, ModifyRequest, extract_body,
  nested_body, content, first_plain,
}
use openclaw_relay.Gmail.Client.Requests.{label_changes}
use openclaw_relay.Gmail.Client.Requests.{history_message}
use openclaw_relay.Gmail.Client.History.{
  HasPages, last, more, get_history, KeepsFirst, get_history-HasPages,
}
use openclaw_relay.Gmail.Client.Body.{Holds, html, inside, here}
use openclaw_relay.Gmail.Handler.{
  GmailClient, Handler, modify_call, resolve_client, guard, modify, handle_modify_message,
}
use openclaw_relay.Base.Decimal.{format}
use openclaw_relay.Gmail.Handler.{handle_list_messages, list_call}
use openclaw_relay.Gmail.Handler.Limits.{handle_list_messages-max}
use openclaw_relay.Gmail.Handler.Calls.{IsFor, handle_modify_message-call}

abbrev wire : Wire
wire = record { base64_url = λ s. s; equal_fold = λ a b. a == b; decode_words = λ s. some s }

-- a mixed message: an HTML part in an alternative
abbrev alternative : Part
alternative =
    part (codes "multipart/alternative") [] none
      (more (part (codes "text/html") [] (some (codes "<b>")) end) end)

abbrev mixed : Part
mixed = part (codes "multipart/mixed") [] none (more alternative end)

body_of_mixed : extract_body wire mixed ≡ codes "<b>"
unfolding extract_body nested_body content first_plain codes ◌==◌
body_of_mixed = refl

b_ne : codes "<b>" ≢ []
b_ne = ne_of_test (codes "<b>") [] (unfold codes ◌==◌ in refl)

mixed_ne : extract_body wire mixed ≢ []
mixed_ne = rw (body_of_mixed) b_ne

mixed-Holds : Holds wire mixed (codes "<b>")
mixed-Holds = inside (here (inside (here (html (refl, (codes "<b>", refl, b_ne, refl))))))

abbrev raw : RawMsg
raw = record { id = codes "m1"; thread_id = codes "t1"; labels = [] }

abbrev page_one : HistoryPage
page_one = record { history_id = 8; added = raw ∷ raw ∷ []; next_page_token = codes "p2" }

abbrev page_two : HistoryPage
page_two = record { history_id = 9; added = raw ∷ []; next_page_token = [] }

-- two pages
abbrev service : Service
service = record {
  list = λ q max. inr [];
  get_metadata = λ id. inl (codes "gone");
  get_full = λ id. inl (codes "gone");
  modify = λ id add remove. none;
  labels = inr [];
  thread = λ id. inr [];
  profile_history_id = inr 9;
  history = λ start token. if token == [] then inr page_one else inr page_two;
}

p2_ne : codes "p2" ≢ []
p2_ne = ne_of_test (codes "p2") [] (unfold codes ◌==◌ in refl)

second_page : service.history 5 (codes "p2") ≡ inr page_two
unfolding codes ◌==◌
second_page = refl

first_page : service.history 5 [] ≡ inr page_one
unfolding ◌==◌
first_page = refl

two-HasPages : HasPages service 5 [] 2 (raw ∷ raw ∷ raw ∷ []) 9
two-HasPages = more page_one first_page p2_ne (last page_two second_page refl)

get_history-HasPages_example :
    (kept : List RawMsg) × (get_history wire service 3 5
      ≡ some (inr (map (history_message wire service) kept, 9)))
    × KeepsFirst [] (raw ∷ raw ∷ raw ∷ []) kept
get_history-HasPages_example =
    get_history-HasPages wire service 3 5 2 (raw ∷ raw ∷ raw ∷ []) 9 two-HasPages (ground arith)

abbrev star : ModifyRequest
star = record {
  add_labels = [];
  remove_labels = codes "X" ∷ [];
  archive = true;
  mark_read = false;
  star = true;
}

starred : label_changes star ≡ (codes "STARRED" ∷ [], codes "X" ∷ codes "INBOX" ∷ [])
unfolding label_changes
starred = refl

abbrev client : GmailClient
client = record {
  email = codes "me@x.org";
  list_messages = λ q max. inr [];
  get_message = λ id. inl (codes "gone");
  modify_message = λ id req. none;
  list_labels = inr [];
  get_thread = λ id. inr [];
}

abbrev handler : Handler
handler = record { clients = (codes "me@x.org", client) ∷ []; default_email = codes "me@x.org" }

abbrev request : Request
request = record {
  method = codes "POST";
  host = [];
  path = codes "/api/gmail/modify/m1";
  query = [];
  headers = [];
  cookies = [];
  remote_addr = [];
  body = some (codes "{}");
}

starred_m1 :
    (handle_modify_message (λ body. some star) handler request).call
    ≡ some (codes "me@x.org", modify_call (codes "m1") star)
unfolding handle_modify_message guard modify resolve_client query_param lookup trim_prefix codes
    ◌==◌
starred_m1 = refl

handle_modify_message-call_example :
    ((handle_modify_message (λ body. some star) handler request).call
      ≡ some (codes "me@x.org", modify_call (codes "m1") star))
    ↔ ((request.method ≡ codes "POST")
        × ((c : GmailClient) × IsFor handler request c × (c.email ≡ codes "me@x.org"))
        × (trim_prefix request.path (codes "/api/gmail/modify/") ≡ codes "m1")
        × (codes "m1" ≢ [])
        × (some star ≡ some star))
handle_modify_message-call_example =
    handle_modify_message-call (λ body. some star) handler request (codes "me@x.org") (codes "m1")
      star

-- the list of messages, 50 of them
abbrev asks : Request
asks = record request {
  method = codes "GET";
  path = codes "/api/gmail/messages";
  query = (codes "max", format 50) ∷ [];
}

asks_client : resolve_client handler asks ≡ some client
unfolding resolve_client query_param lookup codes ◌==◌
asks_client = refl

handle_list_messages-max_example :
    (query : Str) × (max : ℕ) × ((handle_list_messages handler asks).call
      ≡ some (client.email, list_call query max))
    × (0 < max)
    × (max < 2 ^ 63)
    × (query_param asks (codes "max") ≡ [] → max ≡ 20)
    × ((n : ℕ) → 0 < n → n < 2 ^ 63 → query_param asks (codes "max") ≡ format n → max ≡ n)
handle_list_messages-max_example = handle_list_messages-max handler asks client refl asks_client
