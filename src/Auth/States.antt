-- ===== src/Auth/States.antt =====
-- The states of logins of internal/auth/google.go over the life of the server: each serves once.
use mathlib.Core.Path.{subst}
use openclaw_relay.Base.{
  ℕ, ◌≡◌, ◌≢◌, inl, inr, sym, ap, ◌∙◌, none, some, List, [], ◌∷◌, arith, Bool-cases, Option-cases,
  not, ◌&&◌, Option, All,
}
use openclaw_relay.Base.Str.{Str, ◌==◌, codes, eq_iff}
use openclaw_relay.Base.Map.{
  lookup, delete, HasUniqueKeys, lookup-insert, lookup-delete, insert-HasUniqueKeys,
  delete-HasUniqueKeys,
}
use openclaw_relay.Encoding.{hex_encode}
use openclaw_relay.Http.{Request, query_param}
use openclaw_relay.Config.{is_member}
use openclaw_relay.Tokens.{Codec, Disk}
use openclaw_relay.Auth.Google.{
  GoogleAuth, Oauth, StateEntry, error, cleanup_states, generate_state, consume_state, handle_login,
  handle_callback, handle_logout, resume,
}
use openclaw_relay.Auth.Callback.{gone, callback_unknown}
use openclaw_relay.Auth.Login.{exchange_code_states}
use openclaw_relay.Auth.Cleanup.{fresh_states-none, fresh_states-HasUniqueKeys}

-- What is done to the login: a request to one of its handlers, or a round of `cleanupStates`.
pub data Action : Type 0 where
  logs_in : Oauth → Str → ℕ → Request → Action
  calls_back : Oauth → Disk → ℕ → Request → Action
  logs_out : Disk → Request → Action
  cleans : ℕ → Action

module _ (hmac : Str → Str → Str) (c : Codec) where
  abbrev pub act : Action → GoogleAuth → GoogleAuth
  act (logs_in o rand now r) g = (handle_login hmac o rand now g r).0
  act (calls_back o d since r) g = (handle_callback hmac c d o since g r).0
  act (logs_out d r) g = (handle_logout c d g r).0
  act (cleans now) g = cleanup_states now g

  abbrev pub act_all : List Action → GoogleAuth → GoogleAuth
  act_all [] g = g
  act_all (a ∷ actions) g = act_all actions (act a g)

  -- The action draws no state that is equal to this one.
  abbrev pub Avoids : Str → Action → Type 0
  Avoids state (logs_in o rand now r) = hex_encode rand ≢ state
  Avoids state (calls_back o d since r) = Unit
  Avoids state (logs_out d r) = Unit
  Avoids state (cleans now) = Unit

  -- The state is unknown, in a map with unique keys.
  record IsSpent (state : Str) (g : GoogleAuth) : Type 0 where
    unique : HasUniqueKeys g.state_to_email
    unknown : lookup state g.state_to_email ≡ none

  IsSpent-same :
      (state : Str) (g g' : GoogleAuth)
      → g'.state_to_email ≡ g.state_to_email
      → IsSpent state g
      → IsSpent state g'
  IsSpent-same state g g' e h = record {
    unique = subst HasUniqueKeys (sym e) h.unique;
    unknown = ap (lookup state) e ∙ h.unknown;
  }

  handle_login-IsSpent :
      (state : Str) (o : Oauth) (rand : Str) (now : ℕ) (g : GoogleAuth) (r : Request)
      → hex_encode rand ≢ state
      → IsSpent state g
      → IsSpent state (handle_login hmac o rand now g r).0
  unfolding handle_login generate_state
  handle_login-IsSpent state o rand now g r ne h =
      let account = query_param r (codes "account") in
      let entry : StateEntry = record { email = account; created_at = now } in
      elim (Bool-cases (not (account == []) && not (is_member account g.allowed_emails))) [
        | inl barred ↦ rw (barred) h
        | inr welcome ↦ rw (welcome) (record {
          unique = insert-HasUniqueKeys (hex_encode rand) entry g.state_to_email h.unique;
          unknown = ground (
            arith,
            lookup-insert (hex_encode rand) state entry g.state_to_email,
            eq_iff (hex_encode rand) state,
            ne,
            h.unknown,
          );
        })
      ]

  used_up :
      (state key : Str) (g : GoogleAuth)
      → IsSpent state g
      → IsSpent state (record g { state_to_email = delete key g.state_to_email })
  used_up state key g h = record {
    unique = delete-HasUniqueKeys key g.state_to_email h.unique;
    unknown = ground (arith, lookup-delete key state g.state_to_email h.unique, h.unknown);
  }

  consume_state-IsSpent :
      (state key : Str) (since : ℕ) (g : GoogleAuth)
      → IsSpent state g
      → IsSpent state (consume_state since key g).0
  unfolding consume_state
  consume_state-IsSpent state key since g h = elim (Option-cases (lookup key g.state_to_email)) [
    | inl missing ↦ rw (missing, consume_state) h
    | inr (entry, found) ↦ rw (found, consume_state) (used_up state key g h)
  ]

  resume-IsSpent :
      (state : Str) (o : Oauth) (d : Disk) (r : Request) (g : GoogleAuth) (expected : Option Str)
      → IsSpent state g
      → IsSpent state (resume hmac c d o r (g, expected)).0
  unfolding resume
  resume-IsSpent state o d r g none h = h
  resume-IsSpent state o d r g (some expected) h =
      IsSpent-same state g _ (exchange_code_states hmac c d o g expected r).0 h

  handle_callback-HasUniqueKeys :
      (o : Oauth) (d : Disk) (since : ℕ) (g : GoogleAuth) (r : Request)
      → HasUniqueKeys g.state_to_email
      → HasUniqueKeys (handle_callback hmac c d o since g r).0.state_to_email
  unfolding handle_callback
  handle_callback-HasUniqueKeys o d since g r unique =
      let consumed = consume_state since (query_param r (codes "state")) g in
      resumed-HasUniqueKeys o d r consumed.0 consumed.1
        (consumed-HasUniqueKeys since (query_param r (codes "state")) g unique)
    where
      consumed-HasUniqueKeys :
          (since : ℕ) (key : Str) (g : GoogleAuth)
          → HasUniqueKeys g.state_to_email
          → HasUniqueKeys (consume_state since key g).0.state_to_email
      consumed-HasUniqueKeys since key g unique =
          unfold consume_state in
          elim (Option-cases (lookup key g.state_to_email)) [
            | inl missing ↦ rw (missing, consume_state) unique
            | inr (entry, found) ↦
                rw (found, consume_state) (delete-HasUniqueKeys key g.state_to_email unique)
          ]

      resumed-HasUniqueKeys :
          (o : Oauth) (d : Disk) (r : Request) (g : GoogleAuth) (expected : Option Str)
          → HasUniqueKeys g.state_to_email
          → HasUniqueKeys (resume hmac c d o r (g, expected)).0.state_to_email
      resumed-HasUniqueKeys o d r g none unique = unfold resume in unique
      resumed-HasUniqueKeys o d r g (some expected) unique =
          unfold resume in
          subst HasUniqueKeys (sym (exchange_code_states hmac c d o g expected r).0) unique

  handle_logout-IsSpent :
      (state : Str) (d : Disk) (g : GoogleAuth) (r : Request)
      → IsSpent state g
      → IsSpent state (handle_logout c d g r).0
  unfolding handle_logout
  handle_logout-IsSpent state d g r h = IsSpent-same state g _ (ground arith) h

  act-IsSpent :
      (state : Str) (a : Action) (g : GoogleAuth)
      → Avoids state a
      → IsSpent state g
      → IsSpent state (act a g)
  unfolding handle_callback cleanup_states
  act-IsSpent state (logs_in o rand now r) g ne h = handle_login-IsSpent state o rand now g r ne h
  act-IsSpent state (calls_back o d since r) g _ h =
      let consumed = consume_state since (query_param r (codes "state")) g in
      resume-IsSpent state o d r consumed.0 consumed.1
        (consume_state-IsSpent state (query_param r (codes "state")) since g h)
  act-IsSpent state (logs_out d r) g _ h = handle_logout-IsSpent state d g r h
  act-IsSpent state (cleans now) g _ h = record {
    unique = fresh_states-HasUniqueKeys now g.state_to_email h.unique;
    unknown = fresh_states-none now g.state_to_email state h.unknown;
  }

  act_all-IsSpent :
      (state : Str) (actions : List Action) (g : GoogleAuth)
      → All (Avoids state) actions
      → IsSpent state g
      → IsSpent state (act_all actions g)
  act_all-IsSpent state [] g h spent = spent
  act_all-IsSpent state (a ∷ actions) g h spent =
      act_all-IsSpent state actions (act a g) h.1 (act-IsSpent state a g h.0 spent)

  -- A state serves one callback only: whatever a callback with it came to, and whatever logins with other
  -- states, callbacks, logouts and clean-ups come after it, another callback with the state is refused with
  -- status 400 and changes nothing.
  pub handle_callback_once :
      (o o' : Oauth) (d d' : Disk) (since since' : ℕ) (g : GoogleAuth) (r r' : Request)
      (actions : List Action)
      → HasUniqueKeys g.state_to_email
      → query_param r' (codes "state") ≡ query_param r (codes "state")
      → All (Avoids (query_param r (codes "state"))) actions
      → handle_callback hmac c d' o' since' (act_all actions (act (calls_back o d since r) g)) r'
        ≡ (act_all actions (act (calls_back o d since r) g), error (codes "invalid state") 400)
  handle_callback_once o o' d d' since since' g r r' actions unique same avoided =
      let state = query_param r (codes "state") in
      let first = (handle_callback hmac c d o since g r).0 in
      let spent : IsSpent state first = record {
        unique = handle_callback-HasUniqueKeys o d since g r unique;
        unknown = gone hmac c d o since g r unique;
      } in
      let later = act_all-IsSpent state actions first avoided spent in
      callback_unknown hmac c d' o' since' (act_all actions first) r'
        (ap (λ k. lookup k (act_all actions first).state_to_email) same ∙ later.unknown)
