-- ===== src/Audit/Logger.antt =====
-- The logger of internal/audit/audit.go: its file, as the bytes behind the name, and the lines that it
-- writes. A write that fails is left out; the mutex makes each line one step.
use openclaw_relay.Base.{
  Bool, true, false, not, if◌then◌else◌, Option, none, some, List, [], ◌∷◌, ◌++◌,
}
use openclaw_relay.Base.Str.{Str, codes}
use openclaw_relay.Base.Decimal.{format}
use openclaw_relay.Json.{quote}
use openclaw_relay.Audit.{Entry}

pub record Logger : Type 0 where
  pub file : Str
  pub is_open : Bool

-- `NewLogger`: the directory is made, and the file is opened to append to it; `before` is what the file
-- holds, nothing if it is new, and `none` if it cannot be opened.
unfoldable pub new_logger : Bool → Option Str → Option Logger
new_logger made before = if not made then none else elim before [
  | none ↦ none
  | some content ↦ some (record { file = content; is_open = true })
]

unfoldable pub close : Logger → Logger
close l = record l { is_open = false }

-- `json.Marshal` of an entry, which has texts and numbers alone and so no error
unfoldable pub marshal : Entry → Str
unfolding quote format
marshal e =
    codes "{\"timestamp\":"
    ++ (quote e.timestamp
        ++ (codes ",\"method\":"
            ++ (quote e.method
                ++ (codes ",\"path\":"
                    ++ (quote e.path
                        ++ (codes ",\"status\":"
                            ++ (format e.status
                                ++ (codes ",\"source_ip\":"
                                    ++ (quote e.source_ip
                                        ++ (codes ",\"latency_ms\":"
                                            ++ (format e.latency_ms ++ codes "}")))))))))))

-- A closed file takes no more bytes.
unfoldable pub log : Entry → Logger → Logger
unfolding marshal
log e l = if l.is_open then record l { file = l.file ++ (marshal e ++ 10 ∷ []) } else l

unfoldable pub log_all : List Entry → Logger → Logger
unfolding log
log_all [] l = l
log_all (e ∷ entries) l = log_all entries (log e l)
