-- ===== src/Service/Health.antt =====
-- cmd/server/service/persona.go: the health endpoints.
use lfx_v2_persona_service.Prelude.{String, Option, none, some, Result, ok, wrapping, ◌>>=◌}
use lfx_v2_persona_service.Nats.{NatsClient, is_ready}

-- `personaSvc`
pub record PersonaService (Bucket : Type 0) : Type 0 where
  pub nats_client : Option (NatsClient Bucket)

module _ {Bucket : Type 0} where
  unfoldable pub livez : PersonaService Bucket → Result String
  livez s = ok "OK"

  unfoldable pub readyz : PersonaService Bucket → Result String
  unfolding is_ready
  readyz s = elim s.nats_client [
    | none ↦ ok "OK"
    | some c ↦ wrapping "NATS not ready" (is_ready c) >>= λ _. ok "OK"
  ]

  -- `NewPersonaService`, with what `getNATSClient` returns.
  unfoldable pub new_persona_service : Option (NatsClient Bucket) → PersonaService Bucket
  new_persona_service client = record { nats_client = client }
