-- ===== src/Webhook/GitHub/ReplayTests.antt =====
-- Two requests in a row to the GitHub handler of internal/webhook/github.go, each of which makes a job.
use openclaw_relay.Base.{◌+◌, ◌<◌, ◌≡◌, ◌≢◌, ◌⊎◌, inl, inr, refl, true, [], arith, length}
use openclaw_relay.Base.Str.{ne_of_test, ◌==◌, codes, has_prefix, trim_prefix}
use openclaw_relay.Base.Decimal.{itoa}
use openclaw_relay.Base.Map.{Ranges, insert, lookup}
use openclaw_relay.Encoding.{hex_encode}
use openclaw_relay.Http.{header}
use openclaw_relay.RateLimit.{new, allow, is_recent, Timed, here, max_entries}
use openclaw_relay.RateLimit.Invariant.{IsValid}
use openclaw_relay.Samples.{sample_config}
use openclaw_relay.Webhook.{Readings}
use openclaw_relay.Webhook.Signature.{verify_github_signature}
use openclaw_relay.Webhook.GitHub.{
  serve_http, receive, dispatch, is_forbidden, is_relevant, is_wanted, is_skipped, job_call,
  rate_limit_key, pr_number, conclusion,
}
use openclaw_relay.Webhook.GitHub.Jobs.{IsDispatch}
use openclaw_relay.Webhook.GitHub.Events.{IsGenuine, IsEvent}
use openclaw_relay.Webhook.GitHub.Replay.{serve_http_replay_github, key_of}
use openclaw_relay.Webhook.GitHub.Samples.{platform, signed, start, readings}

check_run-IsEvent : IsEvent (codes "check_run") (codes "completed")
check_run-IsEvent = inl (refl, refl)

-- two jobs, for the pull requests 12 and 13
IsGenuine-b : IsGenuine platform sample_config (signed (codes "b")) (codes "b")
unfolding header lookup codes ◌==◌
IsGenuine-b = inr refl

IsGenuine-c : IsGenuine platform sample_config (signed (codes "c")) (codes "c")
unfolding header lookup codes ◌==◌
IsGenuine-c = inr refl

kind_b :
    IsEvent
      (header (signed (codes "b")) (codes "X-GitHub-Event"))
      (platform.decode_github (codes "b")).action
unfolding header lookup codes ◌==◌
kind_b = inl (refl, refl)

kind_c :
    IsEvent
      (header (signed (codes "c")) (codes "X-GitHub-Event"))
      (platform.decode_github (codes "c")).action
unfolding header lookup codes ◌==◌
kind_c = inl (refl, refl)

reported_b :
    (sample_config.github.notify_mode ≢ codes "failures")
    ⊎ (conclusion (platform.decode_github (codes "b")) ≢ codes "success")
unfolding conclusion codes ◌==◌
reported_b =
    inr (ne_of_test (conclusion (platform.decode_github (codes "b"))) (codes "success") refl)

reported_c :
    (sample_config.github.notify_mode ≢ codes "failures")
    ⊎ (conclusion (platform.decode_github (codes "c")) ≢ codes "success")
unfolding conclusion codes ◌==◌
reported_c =
    inr (ne_of_test (conclusion (platform.decode_github (codes "c"))) (codes "success") refl)

passes_b :
    (allow readings.seen readings.since readings.now
      (rate_limit_key
        (header (signed (codes "b")) (codes "X-GitHub-Event"))
        (pr_number (platform.decode_github (codes "b"))))
      start.limiter).1
    ≡ true
unfolding allow new is_recent lookup
passes_b = refl

abbrev first_job : IsDispatch platform sample_config readings start.limiter (signed (codes "b")) (
    job_call platform sample_config
      (header (signed (codes "b")) (codes "X-GitHub-Event"))
      (platform.decode_github (codes "b")))
first_job = record {
  body = codes "b";
  posted = refl;
  readable = refl;
  genuine = IsGenuine-b;
  kind = kind_b;
  reported = reported_b;
  allowed = passes_b;
  same = refl;
}

abbrev after_first : Timed
after_first = record {
  limiter = (serve_http platform sample_config readings start.limiter (signed (codes "b"))).limiter;
  clock = 7;
}

abbrev readings_after : Readings
readings_after = record readings { seen = []; since = 8; now = 8 }

passes_c :
    (allow readings_after.seen readings_after.since readings_after.now
      (rate_limit_key
        (header (signed (codes "c")) (codes "X-GitHub-Event"))
        (pr_number (platform.decode_github (codes "c"))))
      after_first.limiter).1
    ≡ true
unfolding serve_http receive dispatch is_forbidden verify_github_signature has_prefix trim_prefix
    header lookup codes ◌==◌ is_relevant is_wanted is_skipped allow new is_recent job_call
    rate_limit_key itoa hex_encode pr_number insert
passes_c = refl

abbrev second_job :
    IsDispatch platform sample_config readings_after after_first.limiter (signed (codes "c")) (
      job_call platform sample_config
        (header (signed (codes "c")) (codes "X-GitHub-Event"))
        (platform.decode_github (codes "c")))
second_job = record {
  body = codes "c";
  posted = refl;
  readable = refl;
  genuine = IsGenuine-c;
  kind = kind_c;
  reported = reported_c;
  allowed = passes_c;
  same = refl;
}

start-IsValid : IsValid start.limiter
unfolding new lookup
start-IsValid = record { unique = tt; unnamed = refl; bounded = omega arith }

key-Ranges : Ranges readings.seen (insert (key_of first_job) readings.now start.limiter.seen)
unfolding rate_limit_key codes insert new lookup header ◌==◌ itoa pr_number
key-Ranges = record { once = (refl, tt); same = λ k. refl }

start_room : length start.limiter.seen < max_entries
unfolding new
start_room = omega arith

start_ttl : readings_after.since < readings.now + start.limiter.ttl
unfolding new
start_ttl = omega arith

serve_http_replay_github_example : ¬ (
    (header (signed (codes "c")) (codes "X-GitHub-Event")
      ≡ header (signed (codes "b")) (codes "X-GitHub-Event"))
    × (pr_number (platform.decode_github (codes "c"))
        ≡ pr_number (platform.decode_github (codes "b"))))
serve_http_replay_github_example =
    serve_http_replay_github platform sample_config sample_config start {t = after_first} readings
      readings_after (signed (codes "b")) (signed (codes "c")) _ _ first_job start-IsValid
      (omega arith) (omega arith) key-Ranges start_room here tt (omega arith) start_ttl second_job
