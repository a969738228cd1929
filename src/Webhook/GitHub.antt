-- ===== src/Webhook/GitHub.antt =====
-- The GitHub webhook of internal/webhook/github.go.
pub mod Events
pub mod Jobs
pub mod Replay
pub mod Limits
mod Samples
mod Tests
mod ReplayTests
use openclaw_relay.Base.{
  ℕ, Bool, true, false, not, ◌&&◌, ◌||◌, Option, none, some, List, [], ◌∷◌, ◌++◌, if◌then◌else◌,
}
use openclaw_relay.Base.Int.{ℤ, pos, is_zero}
use openclaw_relay.Base.Str.{Str, ◌==◌, codes}
use openclaw_relay.Base.Decimal.{itoa}
use openclaw_relay.Base.Map.{Map}
use openclaw_relay.Http.{Request, Response, header, http_error, status_only}
use openclaw_relay.RateLimit.{Limiter, allow}
use openclaw_relay.Gateway.{Call, one_shot_job, one_shot_job_for_agent}
use openclaw_relay.Config.{Config, default_github_message_template}
use openclaw_relay.Webhook.{
  Value, text, number, GitHubPayload, Platform, Readings, Served, quiet, or_default,
}
use openclaw_relay.Webhook.Signature.{verify_github_signature}

-- the map `relevantEvents`
unfoldable pub is_relevant : Str → Bool
is_relevant event =
    event == codes "check_run"
    || event == codes "workflow_run"
    || event == codes "pull_request_review"

-- The `switch` on the event: whether the action is one that the event is handled for.
unfoldable pub is_wanted : Str → Str → Bool
is_wanted event action =
    if event == codes "check_run"
    then action == codes "completed"
    else if event == codes "workflow_run"
    then action == codes "completed"
    else if event == codes "pull_request_review"
    then action == codes "submitted"
    else true

-- the number so far, or that of the first pull request if it is 0 and there is one
abbrev pub first_pr : ℤ → List ℤ → ℤ
first_pr n [] = n
first_pr n (pr ∷ prs) = if is_zero n then pr else n

unfoldable pub pr_number : GitHubPayload → ℤ
pr_number p = first_pr (first_pr p.pr_number p.check_prs) p.workflow_prs

unfoldable pub conclusion : GitHubPayload → Str
conclusion p = if p.check_conclusion == [] then p.workflow_conclusion else p.check_conclusion

-- `notify_mode` "failures" leaves out what went well
unfoldable pub is_skipped : Config → GitHubPayload → Bool
unfolding conclusion
is_skipped cfg p = cfg.github.notify_mode == codes "failures" && conclusion p == codes "success"

unfoldable pub rate_limit_key : Str → ℤ → Str
rate_limit_key event pr = codes "github:" ++ (event ++ b':' ∷ itoa pr)

unfoldable pub message_data : Str → GitHubPayload → Map Value
message_data event p =
    (codes "Event", text event)
    ∷ (codes "Action", text p.action)
    ∷ (codes "Repository", text p.full_name)
    ∷ (codes "PRNumber", number (pr_number p))
    ∷ (codes "PRTitle", text p.pr_title)
    ∷ (codes "Conclusion", text (conclusion p))
    ∷ []

-- `renderGitHubMessage`: the template itself where it does not parse or execute
unfoldable pub render_message : Platform → Str → Map Value → Str
render_message p template values = elim (p.render template values) [
  | none ↦ template
  | some msg ↦ msg
]

-- `fmt.Sprintf("github %s/%s PR#%d", …)`
unfoldable pub event_name : Str → GitHubPayload → Str
event_name event p =
    codes "github " ++ (event ++ (codes "/" ++ (p.action ++ (codes " PR#" ++ itoa (pr_number p)))))

unfoldable pub job_call : Platform → Config → Str → GitHubPayload → Call
job_call p cfg event payload =
    let template =
      if cfg.github.message_template == []
      then default_github_message_template
      else cfg.github.message_template in
    let msg = render_message p template (message_data event payload) in
    let timeout = or_default cfg.github.timeout (pos 120) in
    let delay = or_default cfg.github.delay (pos 2) in
    if not (cfg.github.agent_id == [])
    then one_shot_job_for_agent (event_name event payload) msg cfg.github.agent_id timeout delay
    else one_shot_job (event_name event payload) msg timeout delay

-- The handler from the decoded payload on.
unfoldable pub dispatch : Platform → Config → Readings → Limiter → Str → GitHubPayload → Served
dispatch p cfg w l event payload =
    if not (is_wanted event payload.action)
    then quiet l (status_only 200)
    else if is_skipped cfg payload
    then quiet l (status_only 200)
    else let (l', allowed) =
        allow w.seen w.since w.now (rate_limit_key event (pr_number payload)) l in
      if not allowed then quiet l' (status_only 200) else record {
        limiter = l';
        response = record { status = 200; body = codes "{\"ok\":true}" };
        calls = job_call p cfg event payload ∷ [];
      }

unfoldable pub is_forbidden : Platform → Config → Request → Str → Bool
is_forbidden p cfg r body =
    not (cfg.github.secret == [])
    && not
        (verify_github_signature p body (header r (codes "X-Hub-Signature-256")) cfg.github.secret)

-- The handler once the body is read.
unfoldable pub receive : Platform → Config → Readings → Limiter → Request → Str → Served
receive p cfg w l r body =
    if is_forbidden p cfg r body
    then quiet l (http_error (codes "forbidden") 403)
    else let event = header r (codes "X-GitHub-Event") in
      if not (is_relevant event)
      then quiet l (status_only 200)
      else dispatch p cfg w l event (p.decode_github body)

-- `GitHubHandler.ServeHTTP`
unfoldable pub serve_http : Platform → Config → Readings → Limiter → Request → Served
serve_http p cfg w l r =
    if not (r.method == codes "POST")
    then quiet l (http_error (codes "method not allowed") 405)
    else elim r.body [
      | none ↦ quiet l (http_error (codes "bad request") 400)
      | some body ↦ receive p cfg w l r body
    ]
