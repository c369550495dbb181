-- ===== src/Telemetry.antt =====
-- pkg/utils/otel.go: the sampler that the environment chooses, and the start of the providers.
pub mod Ratio
pub mod Shutdown
use lfx_v2_persona_service.Prelude.{
  String, ◌==◌, ◌<>◌, Bool, true, false, not, ◌||◌, Bool-cases, inl, inr, Option, none, some, List,
  [], ◌∷◌, ◌++◌, if◌then◌else◌, ◌≡◌, ◌≢◌, refl, arith, All,
}
use lfx_v2_persona_service.Config.{Environment}
use lfx_v2_persona_service.Runtime.{Runtime}
use lfx_v2_persona_service.Errors.{join_errors}
use lfx_v2_persona_service.Text.{trim_space, to_lower}

-- Go's floating-point numbers: the parser, with no value for an error, and whether a number is at least
-- 0 and at most 1.
pub record Floats (F : Type 0) : Type 0 where
  pub parse_float : String → Option F
  pub is_ratio : F → Bool
  pub one : F

pub data Sampler (F : Type 0) : Type 0 where
  always_sample never_sample : Sampler F
  trace_id_ratio_based : F → Sampler F
  parent_based : Sampler F → Sampler F

module _ {F : Type 0} (fl : Floats F) where
  unfoldable pub checked_ratio : Option F → F
  checked_ratio none = fl.one
  checked_ratio (some r) = if fl.is_ratio r then r else fl.one

  unfoldable pub parse_ratio : String → F
  unfolding checked_ratio
  parse_ratio arg = if arg == "" then fl.one else checked_ratio (fl.parse_float arg)

  unfoldable pub sampler_from_env : Runtime → Environment → Sampler F
  unfolding parse_ratio trim_space to_lower
  sampler_from_env rt env =
      let sampler = to_lower rt (trim_space (env "OTEL_TRACES_SAMPLER")) in
      let ratio = parse_ratio (trim_space (env "OTEL_TRACES_SAMPLER_ARG")) in
      if sampler == "always_on"
      then always_sample
      else if sampler == "always_off"
      then never_sample
      else if sampler == "traceidratio"
      then trace_id_ratio_based ratio
      else if sampler == "parentbased_always_on"
      then parent_based always_sample
      else if sampler == "parentbased_always_off"
      then parent_based never_sample
      else parent_based (trace_id_ratio_based ratio)

-- The providers that the set-up starts.
pub data Provider : Type 0 where
  tracer meter logger : Provider

-- `shutdownFuncs`, the providers started, and those that were shut down, in order.
pub record Pipeline : Type 0 where
  pub shutdown_funcs : List Provider
  pub started : List Provider
  pub stopped : List Provider

abbrev pub no_pipeline : Pipeline
no_pipeline = record { shutdown_funcs = []; started = []; stopped = [] }

abbrev start_provider : Provider → Pipeline → Pipeline
start_provider p s = record s {
  shutdown_funcs = s.shutdown_funcs ++ p ∷ [];
  started = s.started ++ p ∷ [];
}

-- The joined errors of the functions, `closing` being what each returns.
unfoldable pub stop_all : (Provider → Option String) → Option String → List Provider → Option String
unfolding join_errors
stop_all closing e [] = e
stop_all closing e (p ∷ ps) = stop_all closing (join_errors (e ∷ closing p ∷ [])) ps

-- `shutdown`: its error and the pipeline after it.
unfoldable pub shutdown : (Provider → Option String) → Pipeline → Option String × Pipeline
unfolding stop_all
shutdown closing s = (
  stop_all closing none s.shutdown_funcs,
  record s { shutdown_funcs = []; stopped = s.stopped ++ s.shutdown_funcs },
)

-- `handleErr`
unfoldable pub handle_err :
    (Provider → Option String) → String → Pipeline → Option String × Pipeline
unfolding shutdown join_errors
handle_err closing e s = let (f, s') = shutdown closing s in (join_errors (some e ∷ f ∷ []), s')

abbrev default_service_name : String
default_service_name = "lfx-v2-persona-service"

-- The attributes of the resource that every provider is made with.
pub record Resource : Type 0 where
  pub service_name : String
  pub service_version : String

unfoldable pub resource_of : Environment → Resource
resource_of env = record {
  service_name =
      if env "OTEL_SERVICE_NAME" == "" then default_service_name else env "OTEL_SERVICE_NAME";
  service_version = env "OTEL_SERVICE_VERSION";
}

-- The errors of the libraries' calls: the resource, the span exporter, the metric reader and the log
-- exporter.
pub record Attempts : Type 0 where
  pub resource : Option String
  pub span_exporter : Option String
  pub metric_reader : Option String
  pub log_exporter : Option String

-- `SetupOTelSDK`: its error and the pipeline that it leaves.
unfoldable pub setup_otel_sdk : (Provider → Option String) → Attempts → Option String × Pipeline
unfolding handle_err
setup_otel_sdk closing a = elim a.resource [
  | some e ↦ handle_err closing e no_pipeline
  | none ↦ elim a.span_exporter [
    | some e ↦ handle_err closing e no_pipeline
    | none ↦
        let traced = start_provider tracer no_pipeline in
        elim a.metric_reader [
          | some e ↦ handle_err closing e traced
          | none ↦
              let metered = start_provider meter traced in
              elim a.log_exporter [
                | some e ↦ handle_err closing e metered
                | none ↦ (none, start_provider logger metered)
              ]
        ]
  ]
]
