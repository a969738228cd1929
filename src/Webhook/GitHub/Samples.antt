-- ===== src/Webhook/GitHub/Samples.antt =====
-- Inputs for the runs of the GitHub handler of internal/webhook/github.go.
use openclaw_relay.Base.{none, some, [], ◌∷◌, ◌++◌, if◌then◌else◌}
use openclaw_relay.Base.Int.{pos}
use openclaw_relay.Base.Str.{Str, ◌==◌, codes}
use openclaw_relay.Encoding.{hex_encode}
use openclaw_relay.Http.{Request}
use openclaw_relay.RateLimit.{new, Timed}
use openclaw_relay.Gateway.{Call, one_shot_job_for_agent}
use openclaw_relay.Webhook.{GitHubPayload, Platform, Readings}

abbrev pub failed : GitHubPayload
failed = record {
  action = codes "completed";
  full_name = codes "o/r";
  pr_number = pos 0;
  pr_title = [];
  check_conclusion = codes "failure";
  check_prs = pos 12 ∷ [];
  workflow_conclusion = [];
  workflow_prs = [];
}

abbrev pub platform : Platform
platform = record {
  hmac_sha1 = λ key text. key ++ text;
  hmac_sha256 = λ key text. key ++ text;
  render = λ template values. some (codes "msg");
  decode_trello = λ body. none;
  decode_github =
      λ body. if body == codes "b" then failed else record failed { check_prs = pos 13 ∷ [] };
}

-- a request with the body given, signed
abbrev pub signed : Str → Request
signed body = record {
  method = codes "POST";
  host = [];
  path = [];
  query = [];
  headers =
      (codes "X-Hub-Signature-256", codes "sha256=" ++ hex_encode (codes "g" ++ body))
      ∷ (codes "X-GitHub-Event", codes "check_run")
      ∷ [];
  cookies = [];
  remote_addr = [];
  body = some body;
}

abbrev pub start : Timed
start = record { limiter = new 300; clock = 0 }

abbrev pub readings : Readings
readings = record {
  lists = [];
  lists_again = [];
  seen = (codes "github:check_run:12", 7) ∷ [];
  since = 7;
  now = 7;
}

abbrev pub call : Call
call =
    one_shot_job_for_agent (codes "github check_run/completed PR#12") (codes "msg")
      (codes "reviewer") (pos 120) (pos 2)
