-- ===== src/Service/Startup/Deadlock.antt =====
-- What cmd/server/main.go does when two errors come before it receives the first.
use lfx_v2_persona_service.Prelude.{String, Option, ◌≡◌, true}
use lfx_v2_persona_service.Telemetry.{Provider}
use lfx_v2_persona_service.Service.Startup.{
  reporting, Process, Step, subscribed, not_subscribed, fatal, report, receive, stopped, timed_out,
  http_fails, http_reports, http_shuts_down, signal, signal_reports, Run, here, then_,
}

-- `main` is sending an error to the full channel.
abbrev pub IsBlocked : Process → Type 0
IsBlocked c = (c.main ≡ reporting) × (c.full ≡ true)

Step-IsBlocked :
    {closing : Provider → Option String} {c d : Process}
    → Step closing c d
    → IsBlocked c
    → IsBlocked d
Step-IsBlocked (subscribed e) (m, f) = cc
Step-IsBlocked (not_subscribed e) (m, f) = cc
Step-IsBlocked (fatal e) (m, f) = cc
Step-IsBlocked (report e g) (m, f) = cc
Step-IsBlocked (receive e g) (m, f) = cc
Step-IsBlocked (stopped e g) (m, f) = cc
Step-IsBlocked (timed_out e) (m, f) = cc
Step-IsBlocked (http_fails e) (m, f) = (m, f)
Step-IsBlocked (http_reports e g) (m, f) = cc
Step-IsBlocked (http_shuts_down e g) (m, f) = (m, f)
Step-IsBlocked (signal e) (m, f) = (m, f)
Step-IsBlocked (signal_reports e g) (m, f) = cc

-- Once `main` sends an error to the full channel, it does so forever, whatever happens then, a signal
-- included: only `main` itself would receive.
pub Run-IsBlocked :
    {closing : Provider → Option String} {c d : Process}
    → Run closing c d
    → IsBlocked c
    → IsBlocked d
Run-IsBlocked here b = b
Run-IsBlocked (then_ r s) b = Step-IsBlocked s (Run-IsBlocked r b)
