-- ===== src/Webhook/GitHub/Events.antt =====
-- The guards of the GitHub handler of internal/webhook/github.go and what they mean.
use openclaw_relay.Base.{◌≡◌, ◌≢◌, ◌⊎◌, refl, true, false, [], ◌++◌, arith}
use openclaw_relay.Base.Str.{Str, ◌==◌, codes, eq_iff}
use openclaw_relay.Encoding.{hex_encode}
use openclaw_relay.Http.{Request, header}
use openclaw_relay.Config.{Config}
use openclaw_relay.Webhook.{GitHubPayload, Platform}
use openclaw_relay.Webhook.Signature.{verify_github_signature-eq-true_iff}
use openclaw_relay.Webhook.GitHub.{is_relevant, is_wanted, conclusion, is_skipped, is_forbidden}

-- The request carries the signature that the secret asks for, or no secret is set.
abbrev pub IsGenuine : Platform → Config → Request → Str → Type 0
IsGenuine p cfg r body =
    (cfg.github.secret ≡ [])
    ⊎ (header r (codes "X-Hub-Signature-256")
        ≡ codes "sha256=" ++ hex_encode (p.hmac_sha256 cfg.github.secret body))

pub is_forbidden-eq-false_iff :
    (p : Platform) (cfg : Config) (r : Request) (body : Str)
    → ((is_forbidden p cfg r body ≡ false → IsGenuine p cfg r body)
        × (IsGenuine p cfg r body → is_forbidden p cfg r body ≡ false))
unfolding is_forbidden
is_forbidden-eq-false_iff p cfg r body = ground (
  arith,
  eq_iff cfg.github.secret [],
  verify_github_signature-eq-true_iff p body (header r (codes "X-Hub-Signature-256"))
      cfg.github.secret,
)

-- The events that make jobs, with their actions.
abbrev pub IsEvent : Str → Str → Type 0
IsEvent event action =
    ((event ≡ codes "check_run") × (action ≡ codes "completed"))
    ⊎ ((event ≡ codes "workflow_run") × (action ≡ codes "completed"))
    ⊎ ((event ≡ codes "pull_request_review") × (action ≡ codes "submitted"))

pub events_differ :
    ((codes "workflow_run" == codes "check_run") ≡ false)
    × ((codes "pull_request_review" == codes "check_run") ≡ false)
    × ((codes "pull_request_review" == codes "workflow_run") ≡ false)
unfolding codes ◌==◌
events_differ = (refl, refl, refl)

pub wanted_iff :
    (event action : Str)
    → ((is_relevant event ≡ true → is_wanted event action ≡ true → IsEvent event action)
        × (IsEvent event action → (is_relevant event ≡ true) × (is_wanted event action ≡ true)))
unfolding is_relevant is_wanted
wanted_iff event action = ground (
  arith,
  events_differ,
  eq_iff event (codes "check_run"),
  eq_iff event (codes "workflow_run"),
  eq_iff event (codes "pull_request_review"),
  eq_iff action (codes "completed"),
  eq_iff action (codes "submitted"),
)

pub is_skipped-eq-false_iff :
    (cfg : Config) (p : GitHubPayload)
    → ((is_skipped cfg p ≡ false
          → (cfg.github.notify_mode ≢ codes "failures") ⊎ (conclusion p ≢ codes "success"))
        × ((cfg.github.notify_mode ≢ codes "failures") ⊎ (conclusion p ≢ codes "success")
            → is_skipped cfg p ≡ false))
unfolding is_skipped
is_skipped-eq-false_iff cfg p = ground (
  arith,
  eq_iff cfg.github.notify_mode (codes "failures"),
  eq_iff (conclusion p) (codes "success"),
)
