-- ===== src/Telemetry/Shutdown.antt =====
-- The providers that SetupOTelSDK of pkg/utils/otel.go starts and those that its shutdown stops.
use lfx_v2_persona_service.Prelude.{
  String, Option, none, some, [], ◌∷◌, ◌≡◌, ◌≢◌, refl, inl, inr, ◌⊎◌, arith,
}
use lfx_v2_persona_service.Errors.{join_errors}
use lfx_v2_persona_service.Telemetry.{
  Provider, tracer, meter, logger, Pipeline, Attempts, stop_all, shutdown, handle_err,
  setup_otel_sdk,
}

module _ (closing : Provider → Option String) where
  -- How a set-up may end.
  abbrev pub IsSettled : Option String × Pipeline → Type 0
  IsSettled (e, s) =
      (e ≢ none × (s.stopped ≡ s.started) × (s.shutdown_funcs ≡ []))
      ⊎ ((e ≡ none)
          × (s.started ≡ tracer ∷ meter ∷ logger ∷ [])
          × (s.stopped ≡ [])
          × ((shutdown closing s).1.stopped ≡ tracer ∷ meter ∷ logger ∷ [])
          × ((shutdown closing (shutdown closing s).1).1.stopped ≡ tracer ∷ meter ∷ logger ∷ []))

  joined : (e : String) (f : Option String) → join_errors (some e ∷ f ∷ []) ≢ none
  unfolding join_errors
  joined e f p = grind arith

  settled :
      (r s m l : Option String)
      → IsSettled (
          setup_otel_sdk closing
            (record { resource = r; span_exporter = s; metric_reader = m; log_exporter = l }))
  unfolding setup_otel_sdk handle_err shutdown
  settled (some e) s m l = inl (joined e none, refl, refl)
  settled none (some e) m l = inl (joined e none, refl, refl)
  settled none none (some e) l = inl (joined e (stop_all closing none (tracer ∷ [])), refl, refl)
  settled none none none (some e) =
      inl (joined e (stop_all closing none (tracer ∷ meter ∷ [])), refl, refl)
  settled none none none none = inr (refl, refl, refl, refl, refl)

  -- A set-up that fails has stopped every provider that it started, in the order of their start, and
  -- leaves none to stop. One that succeeds has started the tracer, the meter and the logger and stopped
  -- none, and the first shutdown stops each of them once, in that order, and the second stops no more.
  pub setup_otel_sdk-IsSettled : (a : Attempts) → IsSettled (setup_otel_sdk closing a)
  setup_otel_sdk-IsSettled a = settled a.resource a.span_exporter a.metric_reader a.log_exporter
