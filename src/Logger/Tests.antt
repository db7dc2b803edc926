-- ===== src/Logger/Tests.antt =====
-- Loggers of a process that uses syslog.
use rabbit_mtcp_ws_socks.Prelude.{◌≡◌, refl, true, none, some, [], ◌∷◌}
use rabbit_mtcp_ws_socks.Prelude.Strings.{codes}
use rabbit_mtcp_ws_socks.Config.{pos}
use rabbit_mtcp_ws_socks.Logger.{logln, Process, Logger, close_syslog, infoln, debugln}
use rabbit_mtcp_ws_socks.Logger.Writers.{created, writers_leak}

abbrev started : Process
started = record {
  level = pos 4;
  use_syslog = true;
  syslog_writer = none;
  opened = 0;
  closed = [];
  stdout = [];
  syslog = [];
}

abbrev logger : Logger
logger = record { prefix = codes "[Main]"; level = pos 4; writer = some 0 }

infoln_written :
    (infoln logger (codes "up") started).syslog
    ≡ (0, record { prefix = codes "[Main]"; text = codes "[Info] up" }) ∷ []
unfolding infoln logln
infoln_written = refl

debugln_quiet : debugln logger (codes "up") started ≡ started
unfolding debugln
debugln_quiet = refl

writers_leak_example :
    (p : Process) × (created (codes "[Main]" ∷ codes "[Client]" ∷ []) started ≡ some p)
    × (p.opened ≡ 2)
    × ((close_syslog p).closed ≡ 1 ∷ [])
writers_leak_example = writers_leak (codes "[Main]") (codes "[Client]" ∷ []) started refl
