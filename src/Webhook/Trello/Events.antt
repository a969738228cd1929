-- ===== src/Webhook/Trello/Events.antt =====
-- What the parts of the Trello handler decide: genuine requests, events, and the rule that applies.
use mathlib.Core.Path.{subst}
use mathlib.Core.Option.{some-injective}
use openclaw_relay.Base.{
  ◌≡◌, ◌≢◌, ◌⊎◌, inl, inr, refl, true, false, some, List, [], ◌∷◌, ◌++◌, arith, Bool-cases,
}
use openclaw_relay.Base.Str.{Str, ◌==◌, codes, eq_iff}
use openclaw_relay.Base.Map.{Map}
use openclaw_relay.Encoding.{base64_encode}
use openclaw_relay.Http.{Request, header}
use openclaw_relay.Config.{Config, TrelloRule, list_id_to_name}
use openclaw_relay.Webhook.{TrelloPayload, Platform}
use openclaw_relay.Webhook.Signature.{verify_trello_signature-eq-true_iff}
use openclaw_relay.Webhook.Trello.{
  match_condition, find_rule, is_ignored_member, card_event, comment_event, event_type,
  callback_url, is_forbidden,
}

-- The request carries the signature that the secret asks for, or no secret is set.
abbrev pub IsGenuine : Platform → Config → Request → Str → Type 0
IsGenuine p cfg r body =
    (cfg.trello.secret ≡ [])
    ⊎ (header r (codes "X-Trello-Webhook")
        ≡ base64_encode (p.hmac_sha1 cfg.trello.secret (body ++ callback_url r)))

pub is_forbidden-eq-false_iff :
    (p : Platform) (cfg : Config) (r : Request) (body : Str)
    → ((is_forbidden p cfg r body ≡ false → IsGenuine p cfg r body)
        × (IsGenuine p cfg r body → is_forbidden p cfg r body ≡ false))
unfolding is_forbidden
is_forbidden-eq-false_iff p cfg r body = ground (
  arith,
  eq_iff cfg.trello.secret [],
  verify_trello_signature-eq-true_iff p body (header r (codes "X-Trello-Webhook")) cfg.trello.secret
      (callback_url r),
)

-- The events: a card moved to a list with a name other than "questions", and a comment on a card by
-- somebody who is not ignored.
pub data IsEvent (cfg : Config) (order : Map Str) (p : TrelloPayload) : Str → Type 0 where
  card_moved :
      p.action_type ≡ codes "updateCard"
      → p.list_after_id ≢ []
      → list_id_to_name order p.list_after_id ≢ []
      → list_id_to_name order p.list_after_id ≢ codes "questions"
      → IsEvent cfg order p (codes "card_moved")
  comment_added :
      p.action_type ≡ codes "commentCard"
      → p.card_id ≢ []
      → is_ignored_member cfg.trello.ignore_members p.member_id p.member_username ≡ false
      → IsEvent cfg order p (codes "comment_added")

card_event_sound :
    (p : TrelloPayload) (name event : Str)
    → card_event p name ≡ some event
    → (p.list_after_id ≢ [])
      × (name ≢ [])
      × (name ≢ codes "questions")
      × (event ≡ codes "card_moved")
unfolding card_event
card_event_sound p name event h =
    ground (arith, eq_iff p.list_after_id [], eq_iff name [], eq_iff name (codes "questions"))

comment_event_sound :
    (cfg : Config) (p : TrelloPayload) (event : Str)
    → comment_event cfg p ≡ some event
    → (p.card_id ≢ [])
      × (is_ignored_member cfg.trello.ignore_members p.member_id p.member_username ≡ false)
      × (event ≡ codes "comment_added")
unfolding comment_event
comment_event_sound cfg p event h = ground (arith, eq_iff p.card_id [])

pub event_type_sound :
    (cfg : Config) (order : Map Str) (p : TrelloPayload) (event : Str)
    → event_type cfg order p ≡ some event
    → IsEvent cfg order p event
unfolding event_type
event_type_sound cfg order p event h = elim (Bool-cases (p.action_type == codes "updateCard")) [
  | inl moved ↦
      let c = card_event_sound p (list_id_to_name order p.list_after_id) event (ground arith) in
      rw (c.3) (card_moved ((eq_iff _ _).0 moved) c.0 c.1 c.2)
  | inr other ↦ elim (Bool-cases (p.action_type == codes "commentCard")) [
    | inl comment ↦
        let c = comment_event_sound cfg p event (ground arith) in
        rw (c.2) (comment_added ((eq_iff _ _).0 comment) c.0 c.1)
    | inr none_of_both ↦ absurd (ground arith)
  ]
]

update-ne-comment : (codes "commentCard" == codes "updateCard") ≡ false
unfolding codes ◌==◌
update-ne-comment = refl

pub event_type_complete :
    {cfg : Config} {order : Map Str} {p : TrelloPayload} {event : Str}
    → IsEvent cfg order p event
    → event_type cfg order p ≡ some event
unfolding event_type
event_type_complete {order} {p} (card_moved kind moved watched open_list) = ground (
  arith,
  eq_iff p.action_type (codes "updateCard"),
  eq_iff p.list_after_id [],
  eq_iff (list_id_to_name order p.list_after_id) [],
  eq_iff (list_id_to_name order p.list_after_id) (codes "questions"),
)
event_type_complete {p} (comment_added kind card member) =
    ground
      (arith, update-ne-comment, eq_iff p.action_type (codes "commentCard"), eq_iff p.card_id [])

-- The rule is the first of the list that is for the event and whose condition holds of the list name.
pub data IsFirstRule (event name : Str) : List TrelloRule → TrelloRule → Type 0 where
  first :
      (rule : TrelloRule) (rules : List TrelloRule)
      → rule.event ≡ event
      → match_condition rule.condition name ≡ true
      → IsFirstRule event name (rule ∷ rules) rule
  later :
      (other rule : TrelloRule) (rules : List TrelloRule)
      → (other.event ≢ event) ⊎ (match_condition other.condition name ≡ false)
      → IsFirstRule event name rules rule
      → IsFirstRule event name (other ∷ rules) rule

pub find_rule_sound :
    (rules : List TrelloRule) (event name : Str) (rule : TrelloRule)
    → find_rule rules event name ≡ some rule
    → IsFirstRule event name rules rule
unfolding find_rule
find_rule_sound [] event name rule h = absurd (ground arith)
find_rule_sound (r ∷ rules) event name rule h = elim (Bool-cases (r.event == event)) [
  | inr other ↦
      later r rule rules (inl (λ e. ground (arith, eq_iff r.event event)))
        (find_rule_sound rules event name rule (ground arith))
  | inl same ↦ elim (Bool-cases (match_condition r.condition name)) [
    | inl holds ↦
        let found : r ≡ rule = some-injective r rule (ground arith) in
        subst (IsFirstRule event name (r ∷ rules)) found (first r rules ((eq_iff _ _).0 same) holds)
    | inr fails ↦
        later r rule rules (inr fails) (find_rule_sound rules event name rule (ground arith))
  ]
]

pub find_rule_complete :
    {event name : Str} {rules : List TrelloRule} {rule : TrelloRule}
    → IsFirstRule event name rules rule
    → find_rule rules event name ≡ some rule
unfolding find_rule
find_rule_complete {event} (first rule rules e m) = ground (arith, eq_iff rule.event event)
find_rule_complete {event} (later other rule rules miss more) =
    ground (arith, eq_iff other.event event, find_rule_complete more)

pub post-ne-head : (codes "POST" == codes "HEAD") ≡ false
unfolding codes ◌==◌
post-ne-head = refl
