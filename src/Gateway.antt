-- ===== src/Gateway.antt =====
-- The gateway client of internal/gateway/client.go: the job that it sends and its retries. The HTTP
-- transport is a function from the number of the attempt to its outcome; JSON texts are trees.
pub mod Runs
pub mod Retry
pub mod Payload
mod Tests
use openclaw_relay.Base.{
  ℕ, zero, suc, ◌+◌, ◌-◌, Bool, true, false, ◌&&◌, ◌||◌, not, Option, none, some, List, [], ◌∷◌,
  ◌++◌, ltb, leb, nat_eq, if◌then◌else◌, length,
}
use openclaw_relay.Base.Int.{ℤ}
use openclaw_relay.Base.Str.{Str, ◌==◌, codes}

pub record Client : Type 0 where
  pub url : Str
  pub token : Str
  pub agent_id : Str
  pub model : Str

-- `strings.TrimRight(s, "/")`
unfoldable pub trim_slashes : Str → Str
trim_slashes [] = []
trim_slashes (c ∷ s) =
    let rest = trim_slashes s in if rest == [] && nat_eq c b'/' then [] else c ∷ rest

unfoldable pub new_client : Str → Str → Str → Str → Client
unfolding trim_slashes
new_client url token agent_id model = record {
  url = trim_slashes url;
  token = token;
  agent_id = agent_id;
  model = model;
}

-- The methods of `GatewayClient`, as the calls that a handler makes: name, message, (agent,)
-- timeout in seconds, delay in seconds.
pub data Call : Type 0 where
  one_shot_job : Str → Str → ℤ → ℤ → Call
  one_shot_job_for_agent : Str → Str → Str → ℤ → ℤ → Call

mutual
  pub data Json : Type 0 where
    bool : Bool → Json
    num : ℤ → Json
    text : Str → Json
    obj : Fields → Json

  pub data Fields : Type 0 where
    end : Fields
    field : Str → Json → Fields → Fields

-- The map `job["payload"]`.
unfoldable pub payload_json : Str → Str → ℤ → Json
payload_json model message timeout = obj (
    field (codes "kind") (text (codes "agentTurn")) (
      field (codes "message") (text message) (
        field (codes "timeoutSeconds") (num timeout)
          (if not (model == []) then field (codes "model") (text model) end else end))))

-- The map `job`; `at` is the time at which it fires.
unfoldable pub job_json : Client → Str → Str → Str → ℤ → Str → Json
unfolding payload_json
job_json c name message agent timeout at = obj (
    field (codes "name") (text (codes "webhook: " ++ name)) (
      field (codes "sessionTarget") (text (codes "isolated")) (
        field (codes "enabled") (bool true) (
          field (codes "schedule")
            (obj (field (codes "kind") (text (codes "at")) (field (codes "at") (text at) end)))
            (field (codes "payload") (payload_json c.model message timeout) (
              field (codes "delivery") (obj (field (codes "mode") (text (codes "none")) end))
                (if not (agent == []) then field (codes "agentId") (text agent) end else end)))))))

-- The body of the request, `reqBody`.
unfoldable pub request_json : Client → Str → Str → Str → ℤ → Str → Json
unfolding job_json
request_json c name message agent timeout at = obj (
    field (codes "tool") (text (codes "cron")) (
      field (codes "args")
        (obj (
          field (codes "action") (text (codes "add"))
            (field (codes "job") (job_json c name message agent timeout at) end)))
        (field (codes "sessionKey") (text (codes "agent:" ++ (agent ++ codes ":main"))) end)))

-- What becomes of a request: it cannot be built, it gets no response, or it gets one.
pub data Outcome : Type 0 where
  not_built no_response : Outcome
  response : ℕ → Str → Outcome

pub data RequestError : Type 0 where
  build_error network_error : RequestError
  client_error server_error : ℕ → Str → RequestError

unfoldable pub do_request : Outcome → Option RequestError
do_request not_built = some build_error
do_request no_response = some network_error
do_request (response status body) =
    if leb 400 status && ltb status 500
    then some (client_error status body)
    else if leb 500 status
    then some (server_error status body)
    else none

unfoldable pub is_client_error : RequestError → Bool
is_client_error build_error = false
is_client_error network_error = false
is_client_error (client_error _ _) = true
is_client_error (server_error _ _) = false

-- What the method returns: nil, a 4xx error as it is, or the last error after all attempts.
pub data Result : Type 0 where
  ok : Result
  refused : RequestError → Result
  gave_up : RequestError → Result

-- What the method does: the pauses in seconds, and the requests with their bodies.
pub data Event : Type 0 where
  sleep : ℕ → Event
  request : Json → Event

pub record Run : Type 0 where
  pub events : List Event
  pub result : Result

unfoldable pub backoffs : List ℕ
backoffs = 1 ∷ 2 ∷ 4 ∷ []

abbrev before : List Event → Run → Run
before events run = record run { events = events ++ run.events }

-- One round of the loop behind its pause: the request is sent, and `again` goes on after an error
-- that is worth another attempt.
unfoldable pub settle : Json → Option RequestError → (RequestError → Run) → Run
unfolding is_client_error
settle body none again = record { events = request body ∷ []; result = ok }
settle body (some e) again =
    if is_client_error e
    then record { events = request body ∷ []; result = refused e }
    else before (request body ∷ []) (again e)

module _ (transport : ℕ → Outcome) (body : Json) where
  -- The loop, at attempt `n`, with the pauses that are left; it ends when none is.
  unfoldable pub attempts : List ℕ → ℕ → Run
  unfolding do_request settle
  attempts [] n =
      settle body (do_request (transport n)) (λ e. record { events = []; result = gave_up e })
  attempts (pause ∷ pauses) n =
      let rest = attempts pauses (suc n) in
      settle body (do_request (transport n)) (λ e. before (sleep pause ∷ []) rest)

-- the agent of the call, or the client's own
unfoldable pub agent_for : Client → Str → Str
agent_for c agent = if agent == [] then c.agent_id else agent

-- `CreateOneShotJobForAgent`. `at delay` prints the time `delay` seconds from now.
module _ (transport : ℕ → Outcome) (at : ℤ → Str) where
  unfoldable pub create_one_shot_job_for_agent : Client → Str → Str → Str → ℤ → ℤ → Run
  unfolding attempts request_json agent_for backoffs
  create_one_shot_job_for_agent c name message agent timeout delay =
      if c.url == [] || c.token == []
      then record { events = []; result = ok }
      else let agent' = agent_for c agent in
        attempts transport (request_json c name message agent' timeout (at delay)) backoffs 0

  unfoldable pub create_one_shot_job : Client → Str → Str → ℤ → ℤ → Run
  unfolding create_one_shot_job_for_agent
  create_one_shot_job c name message timeout delay =
      create_one_shot_job_for_agent c name message [] timeout delay

  -- A call of the interface, made on the client.
  unfoldable pub perform : Client → Call → Run
  unfolding create_one_shot_job create_one_shot_job_for_agent
  perform c (one_shot_job name message timeout delay) =
      create_one_shot_job c name message timeout delay
  perform c (one_shot_job_for_agent name message agent timeout delay) =
      create_one_shot_job_for_agent c name message agent timeout delay
