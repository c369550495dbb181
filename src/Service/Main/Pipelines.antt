-- ===== src/Service/Main/Pipelines.antt =====
-- The telemetry with which `main` of cmd/server/main.go goes on.
use mathlib.Core.Path.{subst}
use lfx_v2_persona_service.Prelude.{String, Option, none, some, List, [], ◌∷◌, ◌≡◌, refl}
use lfx_v2_persona_service.Config.{Environment}
use lfx_v2_persona_service.Telemetry.{
  Provider, tracer, meter, logger, Pipeline, Attempts, Resource, resource_of, setup_otel_sdk,
}
use lfx_v2_persona_service.Service.Main.{
  Options, Launch, launches, set_version, after_telemetry, after_flags, set_up, parse_options,
}

abbrev pub providers : List Provider
providers = tracer ∷ meter ∷ logger ∷ []

-- No provider was stopped, and all are to be.
abbrev pub IsStarted : Pipeline → Type 0
IsStarted s = (s.stopped ≡ []) × (s.shutdown_funcs ≡ providers)

abbrev IsReady : Option String × Pipeline → Type 0
IsReady (some e, s) = Unit
IsReady (none, s) = IsStarted s

setup_otel_sdk-IsReady :
    (closing : Provider → Option String) (r s m l : Option String)
    → IsReady (
        setup_otel_sdk closing
          (record { resource = r; span_exporter = s; metric_reader = m; log_exporter = l }))
unfolding setup_otel_sdk
setup_otel_sdk-IsReady closing (some e) s m l = tt
setup_otel_sdk-IsReady closing none (some e) m l = tt
setup_otel_sdk-IsReady closing none none (some e) l = tt
setup_otel_sdk-IsReady closing none none none (some e) = tt
setup_otel_sdk-IsReady closing none none none none = (refl, refl)

launches-injective : (l k : Launch) → launches l ≡ launches k → l ≡ k
launches-injective l k h = cc

launched_telemetry :
    (o : Options) (env : Environment) (r : Option String × Pipeline) (l : Launch)
    → IsReady r
    → after_telemetry o env r ≡ launches l
    → IsStarted l.telemetry
unfolding after_telemetry
launched_telemetry o env (some e, s) l h g = cc
launched_telemetry o env (none, s) l h g =
    subst (λ k. IsStarted k.telemetry) (launches-injective _ l g) h

after_flags-IsStarted :
    (version : String) (closing : Provider → Option String)
    (attempts : Resource → Environment → Attempts) (env : Environment) (o : Option Options)
    (l : Launch)
    → after_flags version closing attempts env o ≡ launches l
    → IsStarted l.telemetry
unfolding after_flags
after_flags-IsStarted version closing attempts env none l h = cc
after_flags-IsStarted version closing attempts env (some o) l h =
    let env' = set_version version env in
    let a = attempts (resource_of env') env' in
    launched_telemetry o _ _ l
      (setup_otel_sdk-IsReady closing a.resource a.span_exporter a.metric_reader a.log_exporter) h

pub set_up-IsStarted :
    (version : String) (closing : Provider → Option String)
    (attempts : Resource → Environment → Attempts) (env : Environment) (args : List String)
    (l : Launch)
    → set_up version closing attempts env args ≡ launches l
    → IsStarted l.telemetry
unfolding set_up
set_up-IsStarted version closing attempts env args =
    after_flags-IsStarted version closing attempts env (parse_options args)
