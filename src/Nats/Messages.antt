-- ===== src/Nats/Messages.antt =====
-- internal/infrastructure/nats/transport_messenger.go, and the callback of a subscription in client.go.
use lfx_v2_persona_service.Prelude.{String, Bool, false, List}
use lfx_v2_persona_service.Json.{Bytes}

-- A message of nats.go, as the transport messenger gives it to the handlers.
pub record Message : Type 0 where
  pub subject : String
  pub payload : Bytes

-- What a handler did with a message: the bodies that it handed to `Respond`, in order, and whether it
-- panicked after them.
pub record Handled : Type 0 where
  pub responses : List Bytes
  pub panicked : Bool

-- The callback: a panic of the handler is recovered, what was sent stays sent.
unfoldable pub process : (Message → Handled) → Message → Handled
process handler msg = record { responses = (handler msg).responses; panicked = false }
