-- ===== src/Gateway/Payload.antt =====
-- What the gateway is asked to do: the parts of the request's body.
use openclaw_relay.Base.{
  ◌≡◌, inl, inr, refl, Option, none, some, List, [], ◌∷◌, ◌++◌, arith, if◌then◌else◌, Bool-cases,
}
use openclaw_relay.Base.Int.{ℤ}
use openclaw_relay.Base.Str.{Str, ◌==◌, codes}
use openclaw_relay.Gateway.{
  Client, Json, bool, num, text, obj, Fields, end, field, request_json, agent_for,
}

-- a member of an object
unfoldable pub find : Str → Fields → Option Json
find k end = none
find k (field j v fields) = if j == k then some v else find k fields

unfoldable pub get : Str → Json → Option Json
unfolding find
get k (bool _) = none
get k (num _) = none
get k (text _) = none
get k (obj fields) = find k fields

-- a member of a member, and so on
unfoldable pub get_in : List Str → Json → Option Json
unfolding get
get_in [] j = some j
get_in (k ∷ path) j = elim (get k j) [ none ↦ none | some v ↦ get_in path v ]

abbrev job : Str
job = codes "job"

abbrev args : Str
args = codes "args"

abbrev payload : Str
payload = codes "payload"

-- The body asks the tool "cron" to add a job that fires once, at the time given, with the message
-- and the timeout of the call. It names the agent and the model exactly if they are not "".
pub record IsRequest (c : Client) (name message agent : Str) (timeout : ℤ) (at : Str) (body : Json)
    : Type 0 where
  pub tool : get_in (codes "tool" ∷ []) body ≡ some (text (codes "cron"))
  pub action : get_in (args ∷ codes "action" ∷ []) body ≡ some (text (codes "add"))
  pub session :
      get_in (codes "sessionKey" ∷ []) body
      ≡ some (text (codes "agent:" ++ (agent ++ codes ":main")))
  pub title : get_in (args ∷ job ∷ codes "name" ∷ []) body ≡ some (text (codes "webhook: " ++ name))
  pub once :
      get_in (args ∷ job ∷ codes "schedule" ∷ codes "kind" ∷ []) body ≡ some (text (codes "at"))
  pub fires : get_in (args ∷ job ∷ codes "schedule" ∷ codes "at" ∷ []) body ≡ some (text at)
  pub message_sent : get_in (args ∷ job ∷ payload ∷ codes "message" ∷ []) body ≡ some (text message)
  pub timeout_sent :
      get_in (args ∷ job ∷ payload ∷ codes "timeoutSeconds" ∷ []) body ≡ some (num timeout)
  pub model_sent :
      get_in (args ∷ job ∷ payload ∷ codes "model" ∷ []) body
      ≡ (if c.model == [] then none else some (text c.model))
  pub agent_sent :
      get_in (args ∷ job ∷ codes "agentId" ∷ []) body
      ≡ (if agent == [] then none else some (text agent))

-- The body of every request says what `IsRequest` lists, with the agent of the call, or with that
-- of the client if the call names none.
pub request_json-IsRequest :
    (c : Client) (name message agent : Str) (timeout : ℤ) (at : Str)
    → IsRequest c name message
        (if agent == [] then c.agent_id else agent)
        timeout
        at
        (request_json c name message (agent_for c agent) timeout at)
unfolding request_json get_in codes ◌==◌ agent_for
request_json-IsRequest c name message agent timeout at = record {
  tool = refl;
  action = refl;
  session = refl;
  title = refl;
  once = refl;
  fires = refl;
  message_sent = refl;
  timeout_sent = refl;
  model_sent = elim (Bool-cases (c.model == [])) [ inl e ↦ rw e | inr e ↦ rw e ];
  agent_sent = elim (Bool-cases (agent == [])) [ inl e ↦ rw e (ground arith) | inr e ↦ rw (e, e) ];
}
