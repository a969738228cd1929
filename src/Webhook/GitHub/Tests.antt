-- ===== src/Webhook/GitHub/Tests.antt =====
-- Runs of the GitHub handler, and the theorems at concrete inputs.
use openclaw_relay.Base.{◌≡◌, inl, inr, refl, some, List, [], ◌∷◌}
use openclaw_relay.Base.Int.{pos, negsuc}
use openclaw_relay.Base.Str.{Str, ◌==◌, codes, has_prefix, trim_prefix}
use openclaw_relay.Base.Decimal.{itoa}
use openclaw_relay.Base.Map.{lookup}
use openclaw_relay.Encoding.{hex_encode}
use openclaw_relay.Http.{Request, header}
use openclaw_relay.RateLimit.{new, allow, is_recent}
use openclaw_relay.Gateway.{Call}
use openclaw_relay.Samples.{sample_config}
use openclaw_relay.Webhook.Signature.{verify_github_signature}
use openclaw_relay.Webhook.GitHub.{
  serve_http, receive, dispatch, is_forbidden, is_relevant, is_wanted, is_skipped, job_call,
  rate_limit_key, pr_number, conclusion, event_name, render_message,
}
use openclaw_relay.Webhook.GitHub.Jobs.{
  IsDispatch, serve_http-calls_github, serve_http_forged_github,
}
use openclaw_relay.Webhook.GitHub.Events.{IsGenuine}
use openclaw_relay.Webhook.GitHub.Samples.{platform, signed, start, readings, call}

printed :
    (itoa (pos 1207) ≡ codes "1207") × (itoa (negsuc 41) ≡ codes "-42") × (itoa (pos 0) ≡ codes "0")
unfolding itoa codes
printed = (refl, refl, refl)

served :
    (serve_http platform sample_config readings start.limiter (signed (codes "b"))).calls
    ≡ call ∷ []
unfolding serve_http receive dispatch is_forbidden verify_github_signature has_prefix trim_prefix
    header lookup codes ◌==◌ is_relevant is_wanted is_skipped allow new is_recent job_call
    rate_limit_key event_name render_message itoa hex_encode pr_number conclusion
served = refl

serve_http-calls_github_example :
    ((serve_http platform sample_config readings start.limiter (signed (codes "b"))).calls
        ≡ call ∷ []
      → IsDispatch platform sample_config readings start.limiter (signed (codes "b")) call
        × (◌≡◌ {A = List Call} [] []))
    × (IsDispatch platform sample_config readings start.limiter (signed (codes "b")) call
        → (serve_http platform sample_config readings start.limiter (signed (codes "b"))).calls
          ≡ call ∷ [])
serve_http-calls_github_example =
    serve_http-calls_github platform sample_config readings start.limiter (signed (codes "b")) call
      []

abbrev forged : Request
forged = record (signed (codes "b")) { headers = [] }

not-IsGenuine :
    (body : Str) → forged.body ≡ some body → ¬ IsGenuine platform sample_config forged body
unfolding codes header lookup
not-IsGenuine body e (inl open_door) = cc
not-IsGenuine body e (inr same) = cc

serve_http_forged_github_example :
    ((serve_http platform sample_config readings start.limiter forged).limiter ≡ start.limiter)
    × ((serve_http platform sample_config readings start.limiter forged).calls ≡ [])
    × ((body : Str)
        → forged.method ≡ codes "POST"
        → forged.body ≡ some body
        → (serve_http platform sample_config readings start.limiter forged).response.status ≡ 403)
serve_http_forged_github_example =
    serve_http_forged_github platform sample_config readings start.limiter forged not-IsGenuine
