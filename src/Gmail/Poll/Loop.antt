-- ===== src/Gmail/Poll/Loop.antt =====
-- The loop of `Start` in internal/gmail/poller.go: the initialisation, and a poll for each tick that
-- comes before the context is done. Each reads its own surroundings.
use openclaw_relay.Base.{ℕ, Option, List, [], ◌∷◌, ◌++◌}
use openclaw_relay.Gmail.{Mail}
use openclaw_relay.Gmail.Poller.{Poller}
use openclaw_relay.Gmail.Poll.{Surroundings, Polled, start, poll}

-- What the first leaves, and then what the next makes of it.
abbrev pub followed : Polled → (Poller → Option ℕ → Polled) → Polled
followed first next =
    let rest = next first.poller first.file in record rest { calls = first.calls ++ rest.calls }

unfoldable pub polls : Mail → List Surroundings → Poller → Option ℕ → Polled
unfolding poll
polls m [] p file = record { poller = p; file = file; calls = [] }
polls m (w ∷ ws) p file = followed (poll m p w file) (polls m ws)

unfoldable pub run : Mail → Surroundings → List Surroundings → Poller → Option ℕ → Polled
unfolding start polls
run m w ws p file = followed (start m p w file) (polls m ws)
