-- ===== src/Gateway/Runs.antt =====
-- What a run of the gateway client of internal/gateway/client.go is, from the outcomes of its requests.
use openclaw_relay.Base.{
  ℕ, zero, suc, ◌+◌, ◌≤◌, ◌<◌, ◌≡◌, ◌⊎◌, inl, inr, refl, true, false, none, some, List, [], ◌∷◌,
  arith, ltb, leb, length, Bool-cases,
}
use openclaw_relay.Gateway.{
  Json, Outcome, not_built, no_response, response, RequestError, build_error, network_error,
  client_error, server_error, Result, ok, refused, gave_up, do_request, is_client_error, Event,
  sleep, request, Run,
}

-- The outcomes by their status: a success, one that ends the attempts, one that calls for another;
-- the last two with the error that they are reported as.
abbrev pub IsSuccess : Outcome → Type 0
IsSuccess not_built = ⊥
IsSuccess no_response = ⊥
IsSuccess (response status _) = status < 400

abbrev pub IsRefusal : Outcome → RequestError → Type 0
IsRefusal not_built e = ⊥
IsRefusal no_response e = ⊥
IsRefusal (response status body) e =
    (400 ≤ status) × (status < 500) × (e ≡ client_error status body)

abbrev pub IsTransient : Outcome → RequestError → Type 0
IsTransient not_built e = e ≡ build_error
IsTransient no_response e = e ≡ network_error
IsTransient (response status body) e = (500 ≤ status) × (e ≡ server_error status body)

-- `Settles transport r n res k`: from attempt `n` on, with `r` attempts in reserve, `k` attempts are
-- made and give `res`. Transient outcomes lead on to the next attempt, all others end the loop.
pub data Settles (transport : ℕ → Outcome) : ℕ → ℕ → Result → ℕ → Type 0 where
  success : (r n : ℕ) → IsSuccess (transport n) → Settles transport r n ok 1
  refusal :
      (r n : ℕ) (e : RequestError) → IsRefusal (transport n) e → Settles transport r n (refused e) 1
  last :
      (n : ℕ) (e : RequestError) → IsTransient (transport n) e → Settles transport 0 n (gave_up e) 1
  more :
      (r n k : ℕ) (res : Result) (e : RequestError)
      → IsTransient (transport n) e
      → Settles transport r (suc n) res k
      → Settles transport (suc r) n res (suc k)

-- the requests sent, and the seconds paused
unfoldable pub requests : List Event → ℕ
requests [] = 0
requests (sleep _ ∷ events) = requests events
requests (request _ ∷ events) = suc (requests events)

unfoldable pub paused : List Event → ℕ
paused [] = 0
paused (sleep p ∷ events) = p + paused events
paused (request _ ∷ events) = paused events

-- `count` requests with the body, and between two of them a pause, the first of those that are left.
abbrev pub schedule : Json → List ℕ → ℕ → List Event
schedule body pauses zero = []
schedule body pauses (suc zero) = request body ∷ []
schedule body [] (suc (suc count)) = []
schedule body (pause ∷ pauses) (suc (suc count)) =
    request body ∷ sleep pause ∷ schedule body pauses (suc count)

abbrev pub total : List ℕ → ℕ
total [] = 0
total (first ∷ rest) = first + total rest

pub do_request-cases :
    (o : Outcome)
    → ((do_request o ≡ none) × IsSuccess o)
      ⊎ ((e : RequestError) × (do_request o ≡ some e) × (is_client_error e ≡ true) × IsRefusal o e)
      ⊎ ((e : RequestError) × (do_request o ≡ some e)
          × (is_client_error e ≡ false)
          × IsTransient o e)
unfolding do_request is_client_error
do_request-cases not_built = inr (inr (build_error, refl, refl, refl))
do_request-cases no_response = inr (inr (network_error, refl, refl, refl))
do_request-cases (response status body) = elim (Bool-cases (leb 400 status)) [
  | inr low ↦ inl (ground arith, ground arith)
  | inl high ↦ elim (Bool-cases (ltb status 500)) [
    | inl client ↦
        inr (inl (client_error status body, ground arith, refl, (ground arith, ground arith, refl)))
    | inr server ↦ inr (inr (server_error status body, ground arith, refl, (ground arith, refl)))
  ]
]

-- What a run of the loop amounts to.
pub record IsRun (transport : ℕ → Outcome) (body : Json) (pauses : List ℕ) (n : ℕ) (run : Run)
    : Type 0 where
  pub count : ℕ
  pub settles : Settles transport (length pauses) n run.result count
  pub done : run.events ≡ schedule body pauses count

pub positive-Settles :
    {transport : ℕ → Outcome} {r n k : ℕ} {res : Result} → Settles transport r n res k → 0 < k
positive-Settles (success _ _ _) = omega arith
positive-Settles (refusal _ _ _ _) = omega arith
positive-Settles (last _ _ _) = omega arith
positive-Settles (more _ _ _ _ _ _ _) = omega arith

pub le-Settles :
    {transport : ℕ → Outcome} {r n k : ℕ} {res : Result} → Settles transport r n res k → k ≤ suc r
le-Settles (success _ _ _) = omega arith
le-Settles (refusal _ _ _ _) = omega arith
le-Settles (last _ _ _) = omega arith
le-Settles (more _ _ _ _ _ _ s) = omega (arith, le-Settles s)

pub requests-schedule :
    (body : Json) (pauses : List ℕ) (count : ℕ) → requests (schedule body pauses count) ≤ count
unfolding requests
requests-schedule body pauses zero = omega arith
requests-schedule body pauses (suc zero) = omega arith
requests-schedule body [] (suc (suc count)) = omega arith
requests-schedule body (pause ∷ pauses) (suc (suc count)) =
    omega (arith, requests-schedule body pauses (suc count))

pub paused-schedule :
    (body : Json) (pauses : List ℕ) (count : ℕ) → paused (schedule body pauses count) ≤ total pauses
unfolding paused
paused-schedule body pauses zero = omega arith
paused-schedule body pauses (suc zero) = omega arith
paused-schedule body [] (suc (suc count)) = omega arith
paused-schedule body (pause ∷ pauses) (suc (suc count)) =
    omega (arith, paused-schedule body pauses (suc count))
