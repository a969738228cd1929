-- ===== src/Audit/LogTests.antt =====
-- A line of the audit log of internal/audit/audit.go for a request whose path holds quotes and a newline.
use openclaw_relay.Base.{◌≡◌, refl, true, none, some, [], ◌∷◌, ◌++◌, map}
use openclaw_relay.Base.Str.{codes}
use openclaw_relay.Base.Decimal.{format}
use openclaw_relay.Json.{quote, escape, step, begin, escape_byte}
use openclaw_relay.Audit.{Entry}
use openclaw_relay.Audit.Logger.{Logger, new_logger, close, marshal, log, log_all}
use openclaw_relay.Json.Reader.{is_utf8, char_tail}
use openclaw_relay.Audit.Reader.{IsReadable, read_entry, log_all-entries}
use openclaw_relay.Audit.Lines.{cut_lines, log_all-lines}

abbrev asked : Entry
asked = record {
  timestamp = codes "now";
  method = codes "GET";
  path = codes "/a\"\n{";
  status = 404;
  source_ip = codes "<h>";
  latency_ms = 1;
}

abbrev logger : Logger
logger = record { file = codes "{}\n"; is_open = true }

logger_opened : new_logger true (some (codes "{}\n")) ≡ some logger
unfolding new_logger
logger_opened = refl

logger_failed : new_logger true none ≡ none
unfolding new_logger
logger_failed = refl

asked_line :
    marshal asked
    ≡ codes
        "{\"timestamp\":\"now\",\"method\":\"GET\",\"path\":\"/a\\\"\\n{\",\"status\":404,\"source_ip\":\"\\u003ch\\u003e\",\"latency_ms\":1}"
unfolding marshal codes quote escape step begin escape_byte format
asked_line = refl

-- U+2028, a character of two bytes, and a byte that is no UTF-8
separators :
    quote (226 ∷ 128 ∷ 168 ∷ 195 ∷ 169 ∷ 255 ∷ [])
    ≡ codes "\"\\u2028" ++ 195 ∷ 169 ∷ codes "\\ufffd\""
unfolding codes quote
separators = refl

logger_closed : log asked (close logger) ≡ close logger
unfolding log close
logger_closed = refl

log_all-lines_example :
    cut_lines (log_all (asked ∷ asked ∷ []) logger).file
    ≡ ((cut_lines logger.file).0 ++ map marshal (asked ∷ asked ∷ []), [])
log_all-lines_example =
    log_all-lines (asked ∷ asked ∷ []) logger refl (unfold cut_lines codes in refl)

asked-IsReadable : IsReadable asked
unfolding is_utf8 char_tail codes
asked-IsReadable = record { timestamp = refl; method = refl; path = refl; source_ip = refl }

log_all-entries_example :
    map read_entry (cut_lines (log_all (asked ∷ asked ∷ []) logger).file).0
    ≡ map read_entry (cut_lines logger.file).0 ++ map some (asked ∷ asked ∷ [])
log_all-entries_example =
    log_all-entries (asked ∷ asked ∷ []) logger refl (unfold cut_lines codes in refl)
      (asked-IsReadable, (asked-IsReadable, tt))
