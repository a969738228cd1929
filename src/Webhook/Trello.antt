-- ===== src/Webhook/Trello.antt =====
-- The Trello webhook of internal/webhook/trello.go.
pub mod Condition
pub mod Events
pub mod Jobs
pub mod Replay
pub mod Limits
pub mod Refusals
pub mod Samples
mod Tests
pub mod ReplayTests
use openclaw_relay.Base.{
  ℕ, suc, ◌+◌, ◌-◌, Bool, true, false, not, ◌&&◌, ◌||◌, Option, none, some, List, [], ◌∷◌, ◌++◌,
  ltb, nat_eq, any, if◌then◌else◌,
}
use openclaw_relay.Base.Int.{pos}
use openclaw_relay.Base.Str.{Str, ◌==◌, codes, contains}
use openclaw_relay.Base.Space.{trim_space}
use openclaw_relay.Base.Index.{index_byte, last_index_byte, slice}
use openclaw_relay.Base.Map.{Map}
use openclaw_relay.Http.{Request, Response, header, http_error, status_only}
use openclaw_relay.RateLimit.{Limiter, allow}
use openclaw_relay.Gateway.{Call, one_shot_job_for_agent}
use openclaw_relay.Config.{Config, TrelloRule, list_id_to_name}
use openclaw_relay.Webhook.{
  Value, text, TrelloPayload, Platform, Readings, Served, quiet, or_default,
}
use openclaw_relay.Webhook.Signature.{verify_trello_signature}

-- `strings.Split(s, "||")`, with the part read so far
unfoldable pub split_bars : Str → Str → List Str
split_bars part [] = part ∷ []
split_bars part (c ∷ []) = (part ++ c ∷ []) ∷ []
split_bars part (c ∷ d ∷ s) =
    let cut = part ∷ split_bars [] s in
    let on = split_bars (part ++ c ∷ []) (d ∷ s) in
    if nat_eq c b'|' && nat_eq d b'|' then cut else on

-- `part[start+1:end]`, if `start >= 0 && end > start`
abbrev pub between : Str → Option ℕ → Option ℕ → Option Str
between part (some start) (some stop) =
    if ltb start stop then some (slice part (suc start) stop) else none
between part (some start) none = none
between part none stop = none

-- the text between the first and the last quote of a part, if there are two
unfoldable pub quoted : Str → Option Str
quoted part = between part (index_byte b'\'' part) (last_index_byte b'\'' part)

abbrev pub is_name : Option Str → Str → Bool
is_name none name = false
is_name (some v) name = v == name

-- The body of the loop of `matchCondition`, on a part.
unfoldable pub part_matches : Str → Str → Bool
unfolding quoted
part_matches list_name part =
    let trimmed = trim_space part in
    contains trimmed (codes "list ==") && is_name (quoted trimmed) list_name

unfoldable pub match_condition : Str → Str → Bool
unfolding split_bars part_matches
match_condition condition list_name =
    if condition == [] then true else any (part_matches list_name) (split_bars [] condition)

unfoldable pub find_rule : List TrelloRule → Str → Str → Option TrelloRule
find_rule [] event list_name = none
find_rule (rule ∷ rules) event list_name =
    if not (rule.event == event)
    then find_rule rules event list_name
    else if match_condition rule.condition list_name
    then some rule
    else find_rule rules event list_name

unfoldable pub is_ignored_member : List Str → Str → Str → Bool
is_ignored_member [] member_id username = false
is_ignored_member (ignored ∷ members) member_id username =
    ignored == member_id || ignored == username || is_ignored_member members member_id username

-- The case "updateCard" of the `switch`, for the list that `ListIDToName` gives.
unfoldable pub card_event : TrelloPayload → Str → Option Str
card_event p list_name =
    if p.list_after_id == []
    then none
    else if list_name == []
    then none
    else if list_name == codes "questions"
    then none
    else some (codes "card_moved")

-- The case "commentCard".
unfoldable pub comment_event : Config → TrelloPayload → Option Str
comment_event cfg p =
    if p.card_id == []
    then none
    else if is_ignored_member cfg.trello.ignore_members p.member_id p.member_username
    then none
    else some (codes "comment_added")

-- The `switch` on the action type: the event that it stands for, or `none` if it is ignored. `order`
-- is the order in which `ListIDToName` ranges over the lists.
unfoldable pub event_type : Config → Map Str → TrelloPayload → Option Str
unfolding card_event comment_event
event_type cfg order p =
    if p.action_type == codes "updateCard"
    then card_event p (list_id_to_name order p.list_after_id)
    else if p.action_type == codes "commentCard"
    then comment_event cfg p
    else none

unfoldable pub rate_limit_key : TrelloPayload → Str
rate_limit_key p = codes "trello:" ++ (p.card_id ++ b':' ∷ p.action_type)

-- the data of the message template
unfoldable pub message_data : TrelloPayload → Map Value
message_data p =
    (codes "CardID", text p.card_id)
    ∷ (codes "CardName", text p.card_name)
    ∷ (codes "ListAfterID", text p.list_after_id)
    ∷ (codes "ListAfterName", text p.list_after_name)
    ∷ (codes "ListBeforeName", text p.list_before_name)
    ∷ (codes "ListName", text p.list_after_name)
    ∷ []

unfoldable pub job_call : Platform → TrelloPayload → Str → TrelloRule → Call
job_call p payload event rule =
    one_shot_job_for_agent (event ++ (codes ": " ++ payload.card_name))
      (elim (p.render rule.action.message_template (message_data payload)) [
        | none ↦ rule.action.message_template
        | some msg ↦ msg
      ])
      rule.action.agent_id (or_default rule.action.timeout (pos 120))
      (or_default rule.action.delay (pos 2))

-- The handler from the rate limit on.
unfoldable pub dispatch : Platform → Config → Readings → Limiter → TrelloPayload → Str → Served
dispatch p cfg w l payload event =
    let (l', allowed) = allow w.seen w.since w.now (rate_limit_key payload) l in
    if not allowed
    then quiet l' (status_only 200)
    else elim (find_rule cfg.trello.rules event
        (list_id_to_name w.lists_again payload.list_after_id)) [
          | none ↦ quiet l' (status_only 200)
          | some rule ↦ record {
            limiter = l';
            response = record { status = 200; body = codes "{\"ok\":true}" };
            calls = job_call p payload event rule ∷ [];
          }
        ]

abbrev pub callback_url : Request → Str
callback_url r = codes "https://" ++ (r.host ++ r.path)

-- the signature check as the handler makes it
unfoldable pub is_forbidden : Platform → Config → Request → Str → Bool
is_forbidden p cfg r body =
    not (cfg.trello.secret == [])
    && not (
        verify_trello_signature p body (header r (codes "X-Trello-Webhook")) cfg.trello.secret
          (callback_url r))

-- The handler once the body is read.
unfoldable pub receive : Platform → Config → Readings → Limiter → Request → Str → Served
receive p cfg w l r body =
    if is_forbidden p cfg r body
    then quiet l (http_error (codes "forbidden") 403)
    else elim (p.decode_trello body) [
      | none ↦ quiet l (status_only 200)
      | some payload ↦ elim (event_type cfg w.lists payload) [
        | none ↦ quiet l (status_only 200)
        | some event ↦ dispatch p cfg w l payload event
      ]
    ]

-- `TrelloHandler.ServeHTTP`
unfoldable pub serve_http : Platform → Config → Readings → Limiter → Request → Served
serve_http p cfg w l r =
    if r.method == codes "HEAD"
    then quiet l (status_only 200)
    else if not (r.method == codes "POST")
    then quiet l (http_error (codes "method not allowed") 405)
    else elim r.body [
      | none ↦ quiet l (http_error (codes "bad request") 400)
      | some body ↦ receive p cfg w l r body
    ]
