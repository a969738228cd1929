-- ===== src/Server/LogTests.antt =====
-- The audit log of internal/audit/audit.go behind two requests to the server.
use openclaw_relay.Base.{◌≡◌, refl, true, some, ◌++◌, map, All}
use openclaw_relay.Base.Str.{◌==◌, codes}
use openclaw_relay.Base.Space.{trim_space}
use openclaw_relay.Base.Map.{lookup}
use openclaw_relay.Http.{header}
use openclaw_relay.Json.Reader.{is_utf8, char_tail}
use openclaw_relay.Audit.{extract_client_ip, forwarded_ip, before_comma}
use openclaw_relay.Audit.Logger.{Logger, log_all}
use openclaw_relay.Audit.Lines.{cut_lines}
use openclaw_relay.Server.Handlers.{serve_all}
use openclaw_relay.Server.Log.{lines}
use openclaw_relay.Server.LogFile.{IsClear, read_line, serve_all-file}
use openclaw_relay.Server.Tests.{world, site, server, requests}

abbrev logger : Logger
logger = record { file = codes "{}\n"; is_open = true }

clear : All (IsClear world site) requests
unfolding is_utf8 char_tail codes extract_client_ip forwarded_ip before_comma header lookup ◌==◌
    trim_space
clear = (
  record { time = refl; method = refl; path = refl; address = refl },
  (record { time = refl; method = refl; path = refl; address = refl }, tt),
)

serve_all-file_example :
    map read_line (cut_lines (log_all (serve_all world site requests server).log logger).file).0
    ≡ map read_line (cut_lines logger.file).0 ++ map some (lines world site requests server)
serve_all-file_example =
    serve_all-file world site requests server logger refl refl refl (unfold cut_lines codes in refl)
      clear
