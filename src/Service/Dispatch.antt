-- ===== src/Service/Dispatch.antt =====
-- cmd/server/service/message_handler.go: the routing of messages and their responses.
use lfx_v2_persona_service.Prelude.{
  String, ◌==◌, true, false, Error, List, [], ◌∷◌, if◌then◌else◌, ◌≡◌, ◌≢◌, Result, ok, err, ◌⊎◌,
}
use lfx_v2_persona_service.Runtime.{Runtime}
use lfx_v2_persona_service.Model.{PersonaResponse}
use lfx_v2_persona_service.Model.Contract.{response_schema}
use mathlib.Core.List.{Permᴰ}
use lfx_v2_persona_service.Model.Wire.{encode_response}
use lfx_v2_persona_service.Cdp.Cache.{KeyValue}
use lfx_v2_persona_service.Sources.Access.{Matches}
use lfx_v2_persona_service.Sources.CdpRoles.{Times}
use lfx_v2_persona_service.Handler.{PersonaHandler}
use lfx_v2_persona_service.Handler.Answers.{GetPersona}
use lfx_v2_persona_service.Json.{Json, Bytes, document, str}
use lfx_v2_persona_service.Json.Encode.{object}
use lfx_v2_persona_service.Errors.{error_text}
use lfx_v2_persona_service.Constants.{persona_get_subject}
use lfx_v2_persona_service.Nats.Messages.{Message, Handled, process}

-- `respondWithError`: the body that it hands to `Respond`.
unfoldable pub error_body : String → Bytes
error_body text = document (object (("error", str text) ∷ []))

-- `HandleMessage`, with what `GetPersona` returns for the message; the bodies handed to `Respond`, whose
-- error is only logged.
unfoldable pub handle_message : (Message → Result Bytes) → Message → List Bytes
unfolding error_body error_text
handle_message get_persona msg =
    if msg.subject == persona_get_subject
    then elim (get_persona msg) [
      | ok response ↦ response ∷ []
      | err e ↦ error_body (error_text e) ∷ []
    ]
    else error_body "unknown subject" ∷ []

-- The callback of the subscription: a message goes to `HandleMessage`, which returns.
unfoldable pub serve : (Message → Result Bytes) → Message → Handled
unfolding handle_message process
serve get_persona =
    process (λ msg. record { responses = handle_message get_persona msg; panicked = false })

-- What the answer to a message is: on the subject of the service an object of the form of the contract,
-- or the error of `GetPersona` as text; on any other that the subject is unknown.
abbrev pub IsAnswer : (Message → Result Bytes) → Message → Bytes → Type 0
IsAnswer get_persona msg body =
    ((msg.subject ≡ persona_get_subject)
      × (((j : Json) × (body ≡ document j) × (response_schema j ≡ true))
          ⊎ ((e : Error) × (get_persona msg ≡ err e) × (body ≡ error_body (error_text e)))))
    ⊎ ((msg.subject ≢ persona_get_subject) × (body ≡ error_body "unknown subject"))

module _ (rt : Runtime) (S : KeyValue) (Bucket : Type 0) (order : Matches → Matches)
    (same : (ms : Matches) → Permᴰ (order ms) ms) (t : Times) (h : PersonaHandler rt S Bucket)
    (get_persona : Message → Result Bytes) where
  -- A message for which `GetPersona` fails, or returns the encoding of a response that it can have.
  abbrev pub IsServed : Message → Type 0
  IsServed msg =
      ((e : Error) × (get_persona msg ≡ err e))
      ⊎ ((resp : PersonaResponse) × GetPersona rt S Bucket order t h msg.payload resp
          × (get_persona msg ≡ ok (document (encode_response resp))))
