-- ===== src/Gateway/Retry.antt =====
-- How often a job is sent, and what the caller is told.
use openclaw_relay.Base.{
  ap, ◌||◌, ℕ, zero, suc, ◌≤◌, ◌<◌, ◌≡◌, ◌≢◌, inl, inr, refl, List, [], ◌∷◌, arith, length,
  Bool-cases,
}
use openclaw_relay.Base.Int.{ℤ}
use openclaw_relay.Base.Str.{eq_of_ne, Str, ◌==◌}
use openclaw_relay.Gateway.{
  Client, Json, Outcome, RequestError, ok, refused, gave_up, sleep, request, Run, settle, attempts,
  backoffs, create_one_shot_job_for_agent, agent_for, request_json,
}
use openclaw_relay.Gateway.Runs.{
  last, more, refusal, success, IsSuccess, IsRefusal, IsTransient, requests, paused,
  do_request-cases, IsRun, schedule, requests-schedule, paused-schedule, positive-Settles,
  le-Settles,
}

module _ (transport : ℕ → Outcome) (body : Json) where
  IsRun-success :
      (pauses : List ℕ) (n : ℕ)
      → IsSuccess (transport n)
      → IsRun transport body pauses n (record { events = request body ∷ []; result = ok })
  IsRun-success pauses n h = record {
    count = 1;
    settles = success (length pauses) n h;
    done = refl;
  }

  IsRun-refusal :
      (pauses : List ℕ) (n : ℕ) (e : RequestError)
      → IsRefusal (transport n) e
      → IsRun transport body pauses n (record { events = request body ∷ []; result = refused e })
  IsRun-refusal pauses n e h = record {
    count = 1;
    settles = refusal (length pauses) n e h;
    done = refl;
  }

  IsRun-last :
      (n : ℕ) (e : RequestError)
      → IsTransient (transport n) e
      → IsRun transport body [] n (record { events = request body ∷ []; result = gave_up e })
  IsRun-last n e h = record { count = 1; settles = last n e h; done = refl }

  IsRun-more :
      (pause : ℕ) (pauses : List ℕ) (n : ℕ) (e : RequestError) (rest : Run)
      → IsTransient (transport n) e
      → IsRun transport body pauses (suc n) rest
      → IsRun transport body
          (pause ∷ pauses)
          n
          (record rest { events = request body ∷ sleep pause ∷ rest.events })
  IsRun-more pause pauses n e rest h run = record {
    count = suc run.count;
    settles = more (length pauses) n run.count rest.result e h run.settles;
    done = after_pause run.count (positive-Settles run.settles) run.done;
  }
    where
      after_pause :
          (count : ℕ)
          → 0 < count
          → rest.events ≡ schedule body pauses count
          → request body ∷ sleep pause ∷ rest.events ≡ schedule body (pause ∷ pauses) (suc count)
      after_pause zero h e = absurd (omega arith)
      after_pause (suc count) h e = ap (λ events. request body ∷ sleep pause ∷ events) e

  attempts-IsRun :
      (pauses : List ℕ) (n : ℕ) → IsRun transport body pauses n (attempts transport body pauses n)
  unfolding attempts
  attempts-IsRun [] n = elim (do_request-cases (transport n)) [
    | inl (fine, h) ↦ rw (fine, settle) (IsRun-success [] n h)
    | inr (inl (e, fails, client, h)) ↦ rw (fails, settle, client) (IsRun-refusal [] n e h)
    | inr (inr (e, fails, other, h)) ↦ rw (fails, settle, other) (IsRun-last n e h)
  ]
  attempts-IsRun (pause ∷ pauses) n =
      let rest = attempts transport body pauses (suc n) in
      let ih = attempts-IsRun pauses (suc n) in
      elim (do_request-cases (transport n)) [
        | inl (fine, h) ↦ rw (fine, settle) (IsRun-success (pause ∷ pauses) n h)
        | inr (inl (e, fails, client, h)) ↦
            rw (fails, settle, client) (IsRun-refusal (pause ∷ pauses) n e h)
        | inr (inr (e, fails, other, h)) ↦
            rw (fails, settle, other) (IsRun-more pause pauses n e rest h ih)
      ]

-- A call on a client with a URL and a token sends one body, up to four times: until a response below
-- 500, a 4xx response being handed back as the error, or until the fourth attempt. It does nothing but
-- these attempts and, between the first and the second, the second and the third, and the third and the
-- fourth, pauses of 1, 2 and 4 seconds.
pub create_one_shot_job_for_agent-IsRun :
    (transport : ℕ → Outcome) (at : ℤ → Str) (c : Client) (name message agent : Str)
    (timeout delay : ℤ)
    → c.url ≢ []
    → c.token ≢ []
    → IsRun transport
        (request_json c name message (agent_for c agent) timeout (at delay))
        (1 ∷ 2 ∷ 4 ∷ [])
        0
        (create_one_shot_job_for_agent transport at c name message agent timeout delay)
unfolding create_one_shot_job_for_agent backoffs
create_one_shot_job_for_agent-IsRun transport at c name message agent timeout delay url token =
    rw (eq_of_ne c.url [] url, eq_of_ne c.token [] token)
      (attempts-IsRun transport (request_json c name message (agent_for c agent) timeout (at delay))
        (1 ∷ 2 ∷ 4 ∷ []) 0)

-- No call sends more than four requests or pauses for more than seven seconds.
pub create_one_shot_job_for_agent_bounds :
    (transport : ℕ → Outcome) (at : ℤ → Str) (c : Client) (name message agent : Str)
    (timeout delay : ℤ)
    → (requests
          (create_one_shot_job_for_agent transport at c name message agent timeout delay).events
        ≤ 4)
      × (paused
            (create_one_shot_job_for_agent transport at c name message agent timeout delay).events
          ≤ 7)
unfolding create_one_shot_job_for_agent backoffs
create_one_shot_job_for_agent_bounds transport at c name message agent timeout delay =
    let body = request_json c name message (agent_for c agent) timeout (at delay) in
    let run = attempts-IsRun transport body (1 ∷ 2 ∷ 4 ∷ []) 0 in
    elim (Bool-cases (c.url == [] || c.token == [])) [
      | inl missing ↦ rw missing (unfold requests paused in (omega arith, omega arith))
      | inr set ↦
          rw (set, run.done)
            (
              omega (
                arith,
                requests-schedule body (1 ∷ 2 ∷ 4 ∷ []) run.count,
                le-Settles run.settles,
              ),
              omega (arith, paused-schedule body (1 ∷ 2 ∷ 4 ∷ []) run.count),
            )
    ]
