-- ===== src/Gmail.antt =====
-- The Gmail side of internal/gmail: the messages, and what the poller asks of a client. Unicode's
-- lower case, text/template and time.ParseDuration are the fields of `Mail`, of which nothing is
-- assumed. Of a context the code only asks whether it is done; it is the number of the times that the
-- question is answered no before it is answered yes.
pub mod Poller
pub mod Poll
pub mod Client
pub mod Handler
pub mod Tests
mod PollTests
mod ClientTests
use openclaw_relay.Base.{ℕ, List, Option, ◌⊎◌}
use openclaw_relay.Base.Int.{ℤ}
use openclaw_relay.Base.Str.{Str}
use openclaw_relay.Base.Map.{Map}

pub record HistoryMessage : Type 0 where
  pub id : Str
  pub thread_id : Str
  pub labels : List Str
  pub subject : Str
  pub from : Str
  pub snippet : Str

-- Go's `(value, error)`: an error is its text.
abbrev pub OrError : Type 0 → Type 0
OrError A = Str ⊎ A

-- What one poll asks of `GmailClient`: each of the two methods is called at most once.
pub record HistoryClient : Type 0 where
  pub get_current_history_id : OrError ℕ
  pub get_history : ℕ → OrError (List HistoryMessage × ℕ)

-- `parse_duration` gives nanoseconds.
pub record Mail : Type 0 where
  pub to_lower : Str → Str
  pub render : Str → Map Str → Option Str
  pub parse_duration : Str → Option ℤ
