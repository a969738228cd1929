-- ===== src/Webhook/Trello/Tests.antt =====
-- Runs of the Trello handler, and the theorems at concrete inputs.
use mathlib.Core.Option.{some-injective}
use openclaw_relay.Base.{
  ℕ, ◌⊎◌, ◌≡◌, inl, inr, refl, sym, ap, ◌∙◌, true, false, some, List, [], ◌∷◌, ◌++◌, arith,
}
use openclaw_relay.Base.Str.{Str, ◌==◌, codes, contains}
use openclaw_relay.Base.Map.{lookup}
use openclaw_relay.Base.Space.{trim_space}
use openclaw_relay.Base.Index.{index_byte, last_index_byte}
use openclaw_relay.Encoding.{base64_encode}
use openclaw_relay.Http.{Request, header}
use openclaw_relay.RateLimit.{new, allow, is_recent}
use openclaw_relay.Gateway.{Call}
use openclaw_relay.Config.{is_member, list_id_to_name}
use openclaw_relay.Samples.{sample_config}
use openclaw_relay.Webhook.Signature.{verify_trello_signature}
use openclaw_relay.Webhook.Trello.{
  match_condition, serve_http, receive, dispatch, job_call, rate_limit_key, event_type, find_rule,
  is_forbidden,
}
use openclaw_relay.Webhook.Trello.Condition.{condition_for, match_condition-condition_for}
use openclaw_relay.Webhook.Trello.Events.{IsGenuine}
use openclaw_relay.Webhook.Trello.Jobs.{
  IsDispatch, serve_http-calls_trello, serve_http_forged_trello,
}
use openclaw_relay.Webhook.Trello.Refusals.{Refusal, serve_http-status_trello}
use openclaw_relay.Webhook.Trello.Samples.{platform, signed, start, readings, call}

-- a condition with a quote in a name and a condition with no space
conditions :
    (match_condition (codes "list == 'dev' || list == 'prod'") (codes "prod") ≡ true)
    × (match_condition (codes "list=='dev'") (codes "dev") ≡ false)
    × (match_condition (codes "list =='dev'") (codes "dev") ≡ true)
    × (match_condition (codes "list == 'dev") (codes "dev") ≡ false)
    × (match_condition [] (codes "dev") ≡ true)
unfolding match_condition codes ◌==◌ contains trim_space index_byte last_index_byte
conditions = (refl, refl, refl, refl, refl)

match_condition-condition_for_example :
    match_condition (condition_for (codes "dev" ∷ codes "prod" ∷ [])) (codes "prod")
    ≡ is_member (codes "prod") (codes "dev" ∷ codes "prod" ∷ [])
match_condition-condition_for_example =
    match_condition-condition_for (codes "prod") (codes "dev") (codes "prod" ∷ [])
      (unfold codes in omega arith)

served : (serve_http platform sample_config readings start.limiter signed).calls ≡ call ∷ []
unfolding serve_http receive dispatch is_forbidden verify_trello_signature header lookup codes ◌==◌
    event_type list_id_to_name allow new is_recent find_rule match_condition contains trim_space
    index_byte last_index_byte job_call rate_limit_key base64_encode
served = refl

serve_http-calls_trello_example :
    ((serve_http platform sample_config readings start.limiter signed).calls ≡ call ∷ []
      → IsDispatch platform sample_config readings start.limiter signed call
        × (◌≡◌ {A = List Call} [] []))
    × (IsDispatch platform sample_config readings start.limiter signed call
        → (serve_http platform sample_config readings start.limiter signed).calls ≡ call ∷ [])
serve_http-calls_trello_example =
    serve_http-calls_trello platform sample_config readings start.limiter signed call []

-- the same request with another signature
abbrev forged : Request
forged = record signed { headers = [] }

not-IsGenuine :
    (body : Str) → forged.body ≡ some body → ¬ IsGenuine platform sample_config forged body
unfolding codes header lookup base64_encode
not-IsGenuine body e (inl open_door) = cc
not-IsGenuine body e (inr same) =
    let read : body ≡ codes "b" = sym (some-injective _ _ e) in
    let bad : [] ≡ base64_encode (codes "s" ++ (codes "b" ++ codes "https://h/p")) =
      same ∙ ap (λ b. base64_encode (codes "s" ++ (b ++ codes "https://h/p"))) read in
    cc

serve_http_forged_trello_example :
    ((serve_http platform sample_config readings start.limiter forged).limiter ≡ start.limiter)
    × ((serve_http platform sample_config readings start.limiter forged).calls ≡ [])
    × ((body : Str)
        → forged.method ≡ codes "POST"
        → forged.body ≡ some body
        → (serve_http platform sample_config readings start.limiter forged).response.status ≡ 403)
serve_http_forged_trello_example =
    serve_http_forged_trello platform sample_config readings start.limiter forged not-IsGenuine

serve_http-status_trello_example :
    (((serve_http platform sample_config readings start.limiter forged).response.status ≡ 200)
      ⊎ (Refusal platform sample_config readings start.limiter forged
            (serve_http platform sample_config readings start.limiter forged).response.status
          × ((serve_http platform sample_config readings start.limiter forged).limiter
              ≡ start.limiter)
          × ((serve_http platform sample_config readings start.limiter forged).calls ≡ [])))
    × ((code : ℕ)
        → Refusal platform sample_config readings start.limiter forged code
        → (serve_http platform sample_config readings start.limiter forged).response.status ≡ code)
serve_http-status_trello_example =
    serve_http-status_trello platform sample_config readings start.limiter forged
