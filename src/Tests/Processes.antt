-- ===== src/Tests/Processes.antt =====
-- The start of the process, its shutdown, its log and its telemetry.
use lfx_v2_persona_service.Prelude.{
  ◌*◌, String, true, false, Option, none, some, [], ◌∷◌, ◌≡◌, refl, arith,
}
use lfx_v2_persona_service.Service.Startup.{
  reporting, receiving, exited, returned, listening, sending, Process, launched, subscribed,
  not_subscribed, http_fails, http_reports, signal, signal_reports, receive, timed_out, serving,
  sent, Run, here, then_,
}
use lfx_v2_persona_service.Service.Startup.Deadlock.{IsBlocked, Run-IsBlocked}
use lfx_v2_persona_service.Service.Startup.Shutdown.{HasEnded, signal_ends}
use lfx_v2_persona_service.Service.Startup.Telemetry.{telemetry_stopped}
use lfx_v2_persona_service.Service.Main.{Launch, set_version, set_up}
use lfx_v2_persona_service.Service.Main.Pipelines.{providers}
use lfx_v2_persona_service.Log.{Attr, Heap, Attrs, cells, append_ctx}
use lfx_v2_persona_service.Log.Attributes.{Both, append_ctx_twice}
use lfx_v2_persona_service.Telemetry.{Provider, Attempts, setup_otel_sdk, no_pipeline, shutdown}
use lfx_v2_persona_service.Telemetry.Shutdown.{IsSettled, setup_otel_sdk-IsSettled}

-- Shutting down any provider fails.
abbrev closing : Provider → Option String
closing p = some "flush"

-- The HTTP server failed and filled the channel, and then the subscription failed.
abbrev blocked : Process
blocked = record {
  main = reporting;
  http = returned;
  signals = listening;
  full = true;
  cancelled = false;
  telemetry = no_pipeline;
}

blocked_run : Run closing (launched no_pipeline) blocked
blocked_run =
    then_ (then_ (then_ here (http_fails refl)) (http_reports refl refl)) (not_subscribed refl)

abbrev signalled : Process
signalled = record blocked { signals = sending }

-- A signal does not end it.
Run-IsBlocked_example : IsBlocked signalled
Run-IsBlocked_example =
    Run-IsBlocked {closing = closing} {c = blocked} {d = signalled} (then_ here (signal refl))
      (refl, refl)

abbrev interrupted : Process
interrupted = record (launched no_pipeline) { main = receiving; signals = sending }

signal_ends_example : (d : Process) × Run closing interrupted d × HasEnded d
signal_ends_example =
    signal_ends {closing = closing} no_pipeline interrupted
      (then_ (then_ here (subscribed refl)) (signal refl)) (λ e. cc) (λ e. cc) (λ e. cc)

abbrev attr : String → Attr
attr v = record { key = "k"; value = v }

-- An array of four cells, the first one in use.
abbrev shared_heap : Heap
shared_heap = record { next = 1; cell = λ a i. attr "base" }

abbrev base : Attrs
base = record { array = 0; len = 1; cap = 4 }

append_ctx_twice_example :
    let first = append_ctx (λ n. n * 2) shared_heap (some base) (attr "one") in
    let second = append_ctx (λ n. n * 2) first.0 (some base) (attr "two") in
    Both second.0 first.1 second.1 (attr "base" ∷ attr "two" ∷ []) (attr "base" ∷ attr "two" ∷ [])
unfolding cells
append_ctx_twice_example =
    append_ctx_twice (λ n. n * 2) shared_heap base (attr "one") (attr "two") (omega arith)

abbrev no_logs : Attempts
no_logs = record {
  resource = none;
  span_exporter = none;
  metric_reader = none;
  log_exporter = some "no exporter";
}

setup_otel_sdk-IsSettled_example : IsSettled closing (setup_otel_sdk closing no_logs)
setup_otel_sdk-IsSettled_example = setup_otel_sdk-IsSettled closing no_logs

abbrev all_start : Attempts
all_start = record {
  resource = none;
  span_exporter = none;
  metric_reader = none;
  log_exporter = none;
}

abbrev launch : Launch
launch = record {
  address = "10.0.0.7:9090";
  dbg = true;
  env = set_version "1.2.3" (λ name. "");
  telemetry = record { shutdown_funcs = providers; started = providers; stopped = [] };
}

-- A signal came while the HTTP server served, and the time for its shutdown is over.
abbrev done : Process
done = record {
  main = exited;
  http = serving;
  signals = sent;
  full = false;
  cancelled = true;
  telemetry = record { shutdown_funcs = []; started = providers; stopped = providers };
}

done_run : Run closing (launched launch.telemetry) done
unfolding shutdown
done_run =
    then_
      (then_ (then_ (then_ (then_ here (subscribed refl)) (signal refl)) (signal_reports refl refl))
        (receive refl refl))
      (timed_out refl)

telemetry_stopped_example : done.telemetry.stopped ≡ providers
unfolding set_up set_version
telemetry_stopped_example =
    telemetry_stopped "1.2.3" closing (λ resource env. all_start) (λ name. "")
      ("-d" ∷ "-p" ∷ "9090" ∷ "-bind=10.0.0.7" ∷ []) launch done refl done_run
