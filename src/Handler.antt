-- ===== src/Handler.antt =====
-- `GetPersona` of internal/service/message_handler.go: the handler, its validation and its sources.
pub mod Collector
pub mod Validation
pub mod Contents
pub mod Answers
pub mod Contract
use lfx_v2_persona_service.Prelude.{
  ℕ, String, ◌==◌, Bool, not, Option, none, some, List, [], ◌∷◌, ◌++◌, if◌then◌else◌, Result, ok,
  err,
}
use lfx_v2_persona_service.Json.{Bytes}
use lfx_v2_persona_service.Json.Decode.{unmarshal}
use lfx_v2_persona_service.Runtime.{Runtime}
use lfx_v2_persona_service.Text.{trim_space, to_lower}
use lfx_v2_persona_service.Username.{is_valid_query_username}
use lfx_v2_persona_service.Nats.{NatsClient}
use lfx_v2_persona_service.Model.{PersonaRequest, PersonaResponse, Project}
use lfx_v2_persona_service.Model.Wire.{decode_persona_request, empty_request}
use lfx_v2_persona_service.Query.Client.{QueryClient}
use lfx_v2_persona_service.Cdp.Client.{CdpClient}
use lfx_v2_persona_service.Cdp.Cache.{KeyValue, Cache}
use lfx_v2_persona_service.Sources.Committee.{source_board_member_and_committee}
use lfx_v2_persona_service.Sources.Director.{source_executive_director}
use lfx_v2_persona_service.Sources.Access.{Matches, source_writer_auditor}
use lfx_v2_persona_service.Sources.MailingList.{source_mailing_list}
use lfx_v2_persona_service.Sources.Meetings.{source_meeting_attendance}
use lfx_v2_persona_service.Sources.CdpRoles.{Times, source_cdp_roles}

-- `errorResponse`
unfoldable pub error_response : String → String → PersonaResponse
error_response code message = record {
  projects = some [];
  error = some (record { code = code; message = message });
}

-- `strings.ToLower(strings.TrimSpace(req.Email))`, and the trimmed username.
unfoldable pub normalize : Runtime → PersonaRequest → PersonaRequest
unfolding trim_space to_lower
normalize rt req = record {
  username = trim_space req.username;
  email = to_lower rt (trim_space req.email);
}

-- A message is answered at once, or its request is handed to the sources.
pub data Validated : Type 0 where
  rejected : PersonaResponse → Validated
  accepted : PersonaRequest → Validated

-- The two tests on a normalized request.
unfoldable pub check_request : PersonaRequest → Validated
unfolding error_response
check_request req =
    if req.email == ""
    then rejected (error_response "validation_error" "email is required")
    else if not (is_valid_query_username req.username)
    then rejected (error_response "validation_error" "username contains invalid characters")
    else accepted req

-- What follows the decoding of the message.
unfoldable pub after_decoding : Runtime → Result PersonaRequest → Validated
unfolding check_request normalize
after_decoding rt (err _) = rejected (error_response "invalid_request" "malformed JSON payload")
after_decoding rt (ok req) = check_request (normalize rt req)

unfoldable pub validate : Runtime → Bytes → Validated
unfolding after_decoding unmarshal decode_persona_request
validate rt body = after_decoding rt (unmarshal rt (decode_persona_request rt) empty_request body)

-- `sourceResult`
pub record SourceResult : Type 0 where
  pub name : String
  pub result : Result (List Project)

module _ (rt : Runtime) (S : KeyValue) (Bucket : Type 0) where
  -- The handler's clients, its cache and its timeout; 0 is none.
  pub record PersonaHandler : Type 0 where
    pub cdp_client : Option CdpClient
    pub cdp_cache : Cache rt S
    pub query_client : Option QueryClient
    pub nats_client : Option (NatsClient Bucket)
    pub handler_timeout : ℕ

  -- `NewPersonaHandler` with no option: every source off, a cache with no bucket.
  abbrev pub no_sources : PersonaHandler
  no_sources = record {
    cdp_client = none;
    cdp_cache = none;
    query_client = none;
    nats_client = none;
    handler_timeout = 0;
  }

  unfoldable pub with_cdp : CdpClient → Cache rt S → PersonaHandler → PersonaHandler
  with_cdp client cache h = record h { cdp_client = some client; cdp_cache = cache }

  unfoldable pub with_query_service :
      QueryClient → Option (NatsClient Bucket) → PersonaHandler → PersonaHandler
  with_query_service client nats h = record h { query_client = some client; nats_client = nats }

  unfoldable pub with_handler_timeout : ℕ → PersonaHandler → PersonaHandler
  with_handler_timeout d h = record h { handler_timeout = d }

  module _ (order : Matches → Matches) (t : Times) where
    unfoldable pub query_sources : PersonaHandler → QueryClient → PersonaRequest → List SourceResult
    query_sources h client req =
        record {
          name = "board_member+committee";
          result = source_board_member_and_committee rt client req;
        }
        ∷ record {
          name = "executive_director";
          result = source_executive_director rt h.nats_client client req;
        }
        ∷ record {
          name = "writer+auditor";
          result = source_writer_auditor rt h.nats_client order client req;
        }
        ∷ record { name = "mailing_list"; result = source_mailing_list rt client req }
        ∷ record { name = "meeting_attendance"; result = source_meeting_attendance rt client req }
        ∷ []

    -- What the goroutines of the enabled sources will send.
    unfoldable pub sources : PersonaHandler → PersonaRequest → List SourceResult
    unfolding query_sources
    sources h req =
        elim h.query_client [ none ↦ [] | some client ↦ query_sources h client req ]
        ++ elim h.cdp_client [
          | none ↦ []
          | some client ↦
              record {
                name = "cdp_roles";
                result = (source_cdp_roles rt S h.nats_client client t req h.cdp_cache).result;
              }
              ∷ []
        ]
