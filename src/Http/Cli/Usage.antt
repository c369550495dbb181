-- ===== src/Http/Cli/Usage.antt =====
-- gen/http/cli/persona/cli.go: the texts that say how the command line is used, for the name of the program.
use lfx_v2_persona_service.Prelude.{String, ◌<>◌, List, [], ◌∷◌}

-- `UsageCommands`
abbrev pub usage_commands : List String
usage_commands = "persona-service (livez|readyz)" ∷ []

-- `UsageExamples`
unfoldable pub usage_examples : String → String
usage_examples program = program <> " " <> "persona-service livez" <> "\n" <> ""

-- What `personaServiceUsage` writes.
unfoldable pub persona_service_usage : String → String
persona_service_usage program =
    "Persona service health endpoints\n" <> "Usage:\n    " <> program
    <> " [globalflags] persona-service COMMAND [flags]\n\n" <> "COMMAND:\n"
    <> "    livez: Check if the service is alive.\n"
    <> "    readyz: Check if the service is ready to accept requests.\n" <> "\n"
    <> "Additional help:\n" <> "    " <> program <> " persona-service COMMAND --help\n"

-- What `personaServiceLivezUsage` and `personaServiceReadyzUsage` write.
unfoldable pub persona_service_livez_usage : String → String
persona_service_livez_usage program =
    program <> " [flags] persona-service livez" <> "\n" <> "\n"
    <> "Check if the service is alive.\n" <> "\n" <> "Example:\n" <> "    " <> program
    <> " persona-service livez\n"

unfoldable pub persona_service_readyz_usage : String → String
persona_service_readyz_usage program =
    program <> " [flags] persona-service readyz" <> "\n" <> "\n"
    <> "Check if the service is ready to accept requests.\n" <> "\n" <> "Example:\n" <> "    "
    <> program <> " persona-service readyz\n"
