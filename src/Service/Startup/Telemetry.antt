-- ===== src/Service/Startup/Telemetry.antt =====
-- When the deferred function of cmd/server/main.go shuts the telemetry down.
use mathlib.Core.Path.{ap₂}
use lfx_v2_persona_service.Prelude.{String, Option, List, [], ◌++◌, ◌≡◌, refl, ap, ◌∙◌}
use lfx_v2_persona_service.Telemetry.{Provider, Resource, Attempts, shutdown}
use lfx_v2_persona_service.Config.{Environment}
use lfx_v2_persona_service.Service.Main.{Launch, launches, set_up}
use lfx_v2_persona_service.Service.Main.Pipelines.{providers, set_up-IsStarted}
use lfx_v2_persona_service.Service.Startup.{
  Main, subscribing, reporting, receiving, stopping, exited, died, Process, launched, returns, Step,
  subscribed, not_subscribed, fatal, report, receive, stopped, timed_out, http_fails, http_reports,
  http_shuts_down, signal, signal_reports, Run, here, then_,
}

-- The providers that were stopped, given where `main` stands.
abbrev pub stopped_at : Main → List Provider
stopped_at subscribing = []
stopped_at reporting = []
stopped_at receiving = []
stopped_at stopping = []
stopped_at exited = providers
stopped_at died = []

-- Those that the deferred function has still to stop.
abbrev left_at : Main → List Provider
left_at subscribing = providers
left_at reporting = providers
left_at receiving = providers
left_at stopping = providers
left_at exited = []
left_at died = providers

record Tracks (c : Process) : Type 0 where
  stopped : c.telemetry.stopped ≡ stopped_at c.main
  left : c.telemetry.shutdown_funcs ≡ left_at c.main

-- What a process tracks while `main` is at a known place.
tracked :
    (c : Process) (m : Main)
    → c.main ≡ m
    → Tracks c
    → (c.telemetry.stopped ≡ stopped_at m) × (c.telemetry.shutdown_funcs ≡ left_at m)
tracked c m e t = (t.stopped ∙ ap stopped_at e, t.left ∙ ap left_at e)

-- A return of `main` stops what is left.
returns-Tracks :
    (closing : Provider → Option String) (c : Process)
    → c.main ≡ stopping
    → Tracks c
    → Tracks (returns closing c)
unfolding shutdown
returns-Tracks closing c m t =
    let (done, left) = tracked c stopping m t in
    record { stopped = ap₂ (λ xs ys. xs ++ ys) done left; left = refl }

module _ {closing : Provider → Option String} where
  Step-Tracks : {c d : Process} → Step closing c d → Tracks c → Tracks d
  Step-Tracks {c} (subscribed e) t =
      let (done, left) = tracked c subscribing e t in record { stopped = done; left = left }
  Step-Tracks {c} (not_subscribed e) t =
      let (done, left) = tracked c subscribing e t in record { stopped = done; left = left }
  Step-Tracks {c} (fatal e) t =
      let (done, left) = tracked c subscribing e t in record { stopped = done; left = left }
  Step-Tracks {c} (report e g) t =
      let (done, left) = tracked c reporting e t in record { stopped = done; left = left }
  Step-Tracks {c} (receive e g) t =
      let (done, left) = tracked c receiving e t in record { stopped = done; left = left }
  Step-Tracks {c} (stopped e g) t = returns-Tracks closing c e t
  Step-Tracks {c} (timed_out e) t = returns-Tracks closing c e t
  Step-Tracks (http_fails e) t = record { stopped = t.stopped; left = t.left }
  Step-Tracks (http_reports e g) t = record { stopped = t.stopped; left = t.left }
  Step-Tracks (http_shuts_down e g) t = record { stopped = t.stopped; left = t.left }
  Step-Tracks (signal e) t = record { stopped = t.stopped; left = t.left }
  Step-Tracks (signal_reports e g) t = record { stopped = t.stopped; left = t.left }

  Run-Tracks : {c d : Process} → Run closing c d → Tracks c → Tracks d
  Run-Tracks here t = t
  Run-Tracks (then_ r s) t = Step-Tracks s (Run-Tracks r t)

-- Once `main` is past its start, the tracer, the meter and the logger are stopped, each once and in this
-- order, exactly when it has returned: none is before, and none when the process ends in `log.Fatalf`.
pub telemetry_stopped :
    (version : String) (closing : Provider → Option String)
    (attempts : Resource → Environment → Attempts) (env : Environment) (args : List String)
    (l : Launch) (c : Process)
    → set_up version closing attempts env args ≡ launches l
    → Run closing (launched l.telemetry) c
    → c.telemetry.stopped ≡ stopped_at c.main
telemetry_stopped version closing attempts env args l c h run =
    let (none_stopped, all_left) = set_up-IsStarted version closing attempts env args l h in
    (Run-Tracks run (record { stopped = none_stopped; left = all_left })).stopped
