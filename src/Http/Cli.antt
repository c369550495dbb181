-- ===== src/Http/Cli.antt =====
-- gen/http/cli/persona/cli.go: the command line of the generated client.
pub mod Commands
pub mod Usage
use lfx_v2_persona_service.Prelude.{
  ℕ, zero, suc, String, ◌==◌, Bool, Option, none, some, List, [], ◌∷◌, if◌then◌else◌, Error,
}
use lfx_v2_persona_service.Flags.{
  FlagSet, FlagError, help_requested, Parsed, parsed, refused, parse,
}
use lfx_v2_persona_service.Http.Client.{
  Outcome, Url, Decoder, Doer, Client, new_client, livez, readyz,
}

pub data CliError : Type 0 where
  not_enough_arguments : CliError
  unknown_service : String → CliError
  unknown_endpoint : String → String → CliError
  flag_error : FlagError → CliError

-- What `ParseEndpoint` does: it returns an endpoint, here by what a call of it gives, or an error, or a
-- flag set ends the process with a status.
pub data Command : Type 0 where
  endpoint : Outcome String → Command
  failure : CliError → Command
  exited : ℕ → Command

-- `ExitOnError`: the status 0 after the help, 2 after any other error.
exit_on_error : FlagError → Command
exit_on_error help_requested = exited 0
exit_on_error _ = exited 2

-- The service and the endpoints have no flags of their own.
abbrev pub no_flags : FlagSet
no_flags = []

abbrev arg : ℕ → List String → String
arg i [] = ""
arg zero (x ∷ xs) = x
arg (suc i) (x ∷ xs) = arg i xs

abbrev pub service_name : String
service_name = "persona-service"

-- The endpoint of a name: `epf`, and later `endpoint`.
unfoldable pub endpoint_of : Client → String → Option (Outcome String)
endpoint_of c epn =
    if epn == "livez" then some (livez c) else if epn == "readyz" then some (readyz c) else none

-- The endpoint's own flags, if arguments are left behind its name.
endpoint_flags : Outcome String → List String → Command
unfolding exit_on_error
endpoint_flags e (name ∷ x ∷ xs) = elim (parse no_flags (x ∷ xs)) [
  | refused f ↦ exit_on_error f
  | parsed vs rest ↦ endpoint e
]
endpoint_flags e _ = endpoint e

module _ (c : Client) where
  -- After the flags of the service.
  select_endpoint : Parsed → Command
  unfolding endpoint_of endpoint_flags
  select_endpoint (refused f) = failure (flag_error f)
  select_endpoint (parsed vs args) = elim (endpoint_of c (arg 0 args)) [
    | none ↦ failure (unknown_endpoint service_name (arg 0 args))
    | some e ↦ endpoint_flags e args
  ]

  -- After the flags of the command line.
  select_service : Parsed → Command
  unfolding exit_on_error select_endpoint
  select_service (refused f) = exit_on_error f
  select_service (parsed vs (svcn ∷ x ∷ xs)) =
      if svcn == service_name
      then select_endpoint (parse no_flags (x ∷ xs))
      else failure (unknown_service svcn)
  select_service (parsed vs _) = failure not_enough_arguments

-- `ParseEndpoint`, for the flags of the command line of the program that calls it.
unfoldable pub parse_endpoint :
    FlagSet → List String → String → String → Doer → Decoder → Bool → (Url → Option Error) → Command
unfolding select_service new_client
parse_endpoint global args scheme host doer dec restore_body new_request =
    select_service (new_client scheme host doer dec restore_body new_request) (parse global args)
