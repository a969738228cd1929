-- ===== src/Gateway/Tests.antt =====
-- Runs of the gateway client, and the theorems at concrete inputs.
use openclaw_relay.Base.{ℕ, zero, suc, ◌≡◌, ◌≢◌, refl, [], ◌∷◌}
use openclaw_relay.Base.Int.{ℤ, pos}
use openclaw_relay.Base.Str.{Str, ◌==◌, codes}
use openclaw_relay.Gateway.{
  Client, new_client, Json, Outcome, no_response, response, ok, refused, client_error, sleep,
  request, Run, create_one_shot_job_for_agent, request_json, agent_for,
}
use openclaw_relay.Gateway.Retry.{create_one_shot_job_for_agent-IsRun}
use openclaw_relay.Gateway.Runs.{IsRun}

abbrev client : Client
client = new_client (codes "http://gw//") (codes "t") (codes "main") []

client_url : client.url ≡ codes "http://gw"
unfolding new_client codes ◌==◌
client_url = refl

abbrev at : ℤ → Str
at delay = codes "2026-01-01T00:00:00Z"

-- two failures, then a success
abbrev flaky : ℕ → Outcome
flaky zero = no_response
flaky (suc zero) = response 502 []
flaky (suc (suc n)) = response 200 []

abbrev run : Run
run = create_one_shot_job_for_agent flaky at client (codes "n") (codes "m") [] (pos 30) (pos 0)

abbrev body : Json
body = request_json client (codes "n") (codes "m") (agent_for client []) (pos 30) (at (pos 0))

run_events : run.events ≡ request body ∷ sleep 1 ∷ request body ∷ sleep 2 ∷ request body ∷ []
unfolding create_one_shot_job_for_agent new_client codes ◌==◌
run_events = refl

run_result : run.result ≡ ok
unfolding create_one_shot_job_for_agent new_client codes ◌==◌
run_result = refl

-- a 4xx response is not tried again
refused_at_once :
    create_one_shot_job_for_agent (λ n. response 403 []) at client [] [] [] (pos 30) (pos 0)
    ≡ record {
      events = request (request_json client [] [] (agent_for client []) (pos 30) (at (pos 0))) ∷ [];
      result = refused (client_error 403 []);
    }
unfolding create_one_shot_job_for_agent new_client codes ◌==◌
refused_at_once = refl

url_set : client.url ≢ []
unfolding new_client codes ◌==◌
url_set = cc

token_set : client.token ≢ []
unfolding new_client codes
token_set = cc

create_one_shot_job_for_agent-IsRun_example : IsRun flaky body (1 ∷ 2 ∷ 4 ∷ []) 0 run
create_one_shot_job_for_agent-IsRun_example =
    create_one_shot_job_for_agent-IsRun flaky at client (codes "n") (codes "m") [] (pos 30) (pos 0)
      url_set token_set
