-- ===== src/Service/Main.antt =====
-- cmd/server/main.go from its flags to the channel of errors.
pub mod Arguments
pub mod Pipelines
use lfx_v2_persona_service.Prelude.{
  ℕ, String, ◌<>◌, ◌==◌, Bool, true, false, Option, none, some, List, [], ◌∷◌, if◌then◌else◌,
}
use lfx_v2_persona_service.Config.{Environment}
use lfx_v2_persona_service.Flags.{
  FlagSet, of_bool, of_string, Value, on, text, Parsed, parsed, refused, parse, value_of,
}
use lfx_v2_persona_service.Telemetry.{
  Provider, Pipeline, Attempts, Resource, resource_of, no_pipeline, setup_otel_sdk,
}

-- The flags of `main`.
abbrev pub main_flags : FlagSet
main_flags = ("d", of_bool) ∷ ("p", of_string) ∷ ("bind", of_string) ∷ []

pub record Options : Type 0 where
  pub dbg : Bool
  pub port : String
  pub bind : String

abbrev pub default_port : String
default_port = "8080"

abbrev as_bool : Value → Bool
as_bool (on b) = b
as_bool (text s) = false

abbrev as_text : Value → String
as_text (text s) = s
as_text (on b) = ""

options_of : List (String × Value) → Options
unfolding value_of
options_of vs = record {
  dbg = as_bool (value_of "d" (on false) vs);
  port = as_text (value_of "p" (text default_port) vs);
  bind = as_text (value_of "bind" (text "*") vs);
}

-- `flag.Parse`: after any error `flag.Usage` ends the process, with the status 2.
unfoldable pub parse_options : List String → Option Options
unfolding parse options_of
parse_options args = elim (parse main_flags args) [
  | refused e ↦ none
  | parsed vs rest ↦ some (options_of vs)
]

-- `addr`
unfoldable pub listen_address : Options → String
listen_address o = if o.bind == "*" then ":" <> o.port else o.bind <> ":" <> o.port

-- `OTEL_SERVICE_VERSION` is the version of the build, unless it is set.
unfoldable pub set_version : String → Environment → Environment
set_version version env name =
    if name == "OTEL_SERVICE_VERSION"
    then (if env name == "" then version else env name)
    else env name

-- What the rest of `main` has of the start.
pub record Launch : Type 0 where
  pub address : String
  pub dbg : Bool
  pub env : Environment
  pub telemetry : Pipeline

-- The process ends with a status, its telemetry as it is then; or `main` goes on.
pub data SetUp : Type 0 where
  exits : ℕ → Pipeline → SetUp
  launches : Launch → SetUp

-- After `SetupOTelSDK`.
after_telemetry : Options → Environment → Option String × Pipeline → SetUp
unfolding listen_address
after_telemetry o env (some e, s) = exits 1 s
after_telemetry o env (none, s) =
    launches (record { address = listen_address o; dbg = o.dbg; env = env; telemetry = s })

-- `attempts` is what the libraries of the telemetry answer for a resource and an
-- environment, `version` the build's.
module _ (version : String) (closing : Provider → Option String)
    (attempts : Resource → Environment → Attempts) (env : Environment) where
  after_flags : Option Options → SetUp
  unfolding set_version resource_of setup_otel_sdk after_telemetry
  after_flags none = exits 2 no_pipeline
  after_flags (some o) =
      let env' = set_version version env in
      after_telemetry o env' (setup_otel_sdk closing (attempts (resource_of env') env'))

  unfoldable pub set_up : List String → SetUp
  unfolding parse_options after_flags
  set_up args = after_flags (parse_options args)
