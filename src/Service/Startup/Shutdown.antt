-- ===== src/Service/Startup/Shutdown.antt =====
-- The end of the process of cmd/server/main.go after a signal.
use lfx_v2_persona_service.Prelude.{
  String, Option, ◌≡◌, ◌≢◌, ◌⊎◌, inl, inr, refl, true, false, Bool,
}
use lfx_v2_persona_service.Telemetry.{Provider, Pipeline}
use lfx_v2_persona_service.Service.Startup.{
  Main, subscribing, reporting, receiving, stopping, exited, died, Signals, listening, sending,
  sent, Process, launched, Step, subscribed, not_subscribed, fatal, report, receive, stopped,
  timed_out, http_fails, http_reports, http_shuts_down, signal, signal_reports, Run, here, then_,
}

-- `main` has returned, or the process ended in `log.Fatalf`.
abbrev pub HasEnded : Process → Type 0
HasEnded c = (c.main ≡ exited) ⊎ (c.main ≡ died)

-- `main` has not received yet.
abbrev is_early : Main → Bool
is_early subscribing = true
is_early reporting = true
is_early receiving = true
is_early stopping = false
is_early exited = false
is_early died = false

-- Before `main` receives, an error that the signals sent is in the channel.
abbrev Keeps : Process → Type 0
Keeps c = is_early c.main ≡ true → c.signals ≡ sent → c.full ≡ true

module _ {closing : Provider → Option String} where
  Step-Keeps : {c d : Process} → Step closing c d → Keeps c → Keeps d
  Step-Keeps (subscribed e) k m s = k (rw e refl) s
  Step-Keeps (not_subscribed e) k m s = k (rw e refl) s
  Step-Keeps (fatal e) k m s = cc
  Step-Keeps (report e g) k m s = refl
  Step-Keeps (receive e g) k m s = cc
  Step-Keeps (stopped e g) k m s = cc
  Step-Keeps (timed_out e) k m s = cc
  Step-Keeps (http_fails e) k m s = k m s
  Step-Keeps (http_reports e g) k m s = refl
  Step-Keeps (http_shuts_down e g) k m s = k m s
  Step-Keeps (signal e) k m s = cc
  Step-Keeps (signal_reports e g) k m s = refl

  Run-Keeps : {telemetry : Pipeline} {c : Process} → Run closing (launched telemetry) c → Keeps c
  Run-Keeps here = λ m s. cc
  Run-Keeps (then_ r s) = Step-Keeps s (Run-Keeps r)

  -- From a full channel `main` receives and ends.
  received_ends :
      {c d : Process}
      → Run closing c d
      → d.main ≡ receiving
      → d.full ≡ true
      → (e : Process) × Run closing c e × HasEnded e
  received_ends run m f = (_, then_ (then_ run (receive m f)) (timed_out refl), inl refl)

  ends_from :
      (c : Process) (m : Main) (g : Signals) (f : Bool)
      → c.main ≡ m
      → c.signals ≡ g
      → c.full ≡ f
      → Keeps c
      → m ≢ subscribing
      → m ≢ reporting
      → g ≢ listening
      → (d : Process) × Run closing c d × HasEnded d
  ends_from c subscribing g f em eg ef k not_s not_r heard = absurd (not_s refl)
  ends_from c reporting g f em eg ef k not_s not_r heard = absurd (not_r refl)
  ends_from c receiving listening f em eg ef k not_s not_r heard = absurd (heard refl)
  ends_from c receiving g true em eg ef k not_s not_r heard = received_ends here em ef
  ends_from c receiving sending false em eg ef k not_s not_r heard =
      received_ends (then_ here (signal_reports eg ef)) em refl
  ends_from c receiving sent false em eg ef k not_s not_r heard =
      let full : c.full ≡ true = k (rw em refl) eg in cc
  ends_from c stopping g f em eg ef k not_s not_r heard = (_, then_ here (timed_out em), inl refl)
  ends_from c exited g f em eg ef k not_s not_r heard = (c, here, inl em)
  ends_from c died g f em eg ef k not_s not_r heard = (c, here, inr em)

  -- From every reachable state in which `main` is past the subscription and past sending its error, and
  -- a signal has come, the process can end.
  pub signal_ends :
      (telemetry : Pipeline) (c : Process)
      → Run closing (launched telemetry) c
      → c.main ≢ subscribing
      → c.main ≢ reporting
      → c.signals ≢ listening
      → (d : Process) × Run closing c d × HasEnded d
  signal_ends telemetry c run = ends_from c c.main c.signals c.full refl refl refl (Run-Keeps run)
