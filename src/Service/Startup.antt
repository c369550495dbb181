-- ===== src/Service/Startup.antt =====
-- cmd/server/main.go and http.go: the start and the shutdown of the process, its goroutines and the
-- channel of errors.
pub mod Deadlock
pub mod Shutdown
pub mod Readiness
pub mod Telemetry
use lfx_v2_persona_service.Prelude.{
  ℕ, String, Bool, true, false, Option, none, some, ◌≡◌, Result, ok, err, Error,
}
use lfx_v2_persona_service.Telemetry.{Provider, Pipeline, shutdown}
use lfx_v2_persona_service.Nats.{NatsClient}
use lfx_v2_persona_service.Service.Health.{PersonaService, new_persona_service}

-- Where `main` stands: in `QueueSubscriptions`, sending its error to the channel, receiving from the
-- channel, waiting for the goroutines of the servers, or returned; or the process ended in `log.Fatalf`.
pub data Main : Type 0 where
  subscribing reporting receiving stopping exited died : Main

-- The goroutine of the HTTP server: serving, sending the error of `ListenAndServe`, or returned.
pub data Http : Type 0 where
  serving failing returned : Http

-- The goroutine of the signals: none came yet, one is being sent to the channel, or it was sent.
pub data Signals : Type 0 where
  listening sending sent : Signals

-- `full` says whether the channel, which has room for one error, holds one; `cancelled` whether the
-- context was; `telemetry` is what the deferred function of `main` shuts down.
pub record Process : Type 0 where
  pub main : Main
  pub http : Http
  pub signals : Signals
  pub full : Bool
  pub cancelled : Bool
  pub telemetry : Pipeline

abbrev pub launched : Pipeline → Process
launched telemetry = record {
  main = subscribing;
  http = serving;
  signals = listening;
  full = false;
  cancelled = false;
  telemetry = telemetry;
}

-- `main` returns: its deferred function shuts the telemetry down.
abbrev pub returns : (Provider → Option String) → Process → Process
returns closing c = record c { main = exited; telemetry = (shutdown closing c.telemetry).1 }

-- `closing` is what shutting down each provider of the telemetry returns.
pub data Step (closing : Provider → Option String) (c : Process) : Process → Type 0 where
  -- `QueueSubscriptions` returns nil, or an error.
  subscribed : c.main ≡ subscribing → Step closing c (record c { main = receiving })
  not_subscribed : c.main ≡ subscribing → Step closing c (record c { main = reporting })
  -- `log.Fatalf` in `natsInit`: deferred functions are not called.
  fatal : c.main ≡ subscribing → Step closing c (record c { main = died })
  report :
      c.main ≡ reporting
      → c.full ≡ false
      → Step closing c (record c { main = receiving; full = true })
  receive :
      c.main ≡ receiving
      → c.full ≡ true
      → Step closing c (record c { main = stopping; full = false; cancelled = true })
  -- The goroutines have returned, or the time for the shutdown is over.
  stopped : c.main ≡ stopping → c.http ≡ returned → Step closing c (returns closing c)
  timed_out : c.main ≡ stopping → Step closing c (returns closing c)
  -- `ListenAndServe` returns an error of its own.
  http_fails : c.http ≡ serving → Step closing c (record c { http = failing })
  http_reports :
      c.http ≡ failing → c.full ≡ false → Step closing c (record c { http = returned; full = true })
  -- `Shutdown` after the context was cancelled: `ListenAndServe` returns `ErrServerClosed`.
  http_shuts_down :
      c.http ≡ serving → c.cancelled ≡ true → Step closing c (record c { http = returned })
  -- SIGINT or SIGTERM.
  signal : c.signals ≡ listening → Step closing c (record c { signals = sending })
  signal_reports :
      c.signals ≡ sending
      → c.full ≡ false
      → Step closing c (record c { signals = sent; full = true })

pub data Run (closing : Provider → Option String) (c : Process) : Process → Type 0 where
  here : Run closing c c
  then_ : {d e : Process} → Run closing c d → Step closing d e → Run closing c e

-- The variables of the package service in the order of `main`: the health service is made first, with
-- the client that is there, and `QueueSubscriptions` sets the client afterwards.
pub record Started (Bucket : Type 0) : Type 0 where
  pub health : PersonaService Bucket
  pub nats_client : Option (NatsClient Bucket)

-- `initialised` is what `natsInit` does; an error ends the process.
unfoldable pub start_up : {Bucket : Type 0} → Result (NatsClient Bucket) → Result (Started Bucket)
unfolding new_persona_service
start_up {Bucket} initialised =
    let nats_client : Option (NatsClient Bucket) = none in
    let health = new_persona_service nats_client in
    elim initialised [
      | err e ↦ err e
      | ok client ↦ ok (record { health = health; nats_client = some client })
    ]
