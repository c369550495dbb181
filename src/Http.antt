-- ===== src/Http.antt =====
-- gen/persona_service: the interface of the health service and its endpoints; and what the HTTP server
-- and client of gen/http use of net/http and goa.
pub mod Server
pub mod Contracts
pub mod Status
pub mod Routing
pub mod Client
pub mod Transport
pub mod RoundTrip
pub mod Cli
pub mod Replies
pub mod Design
use lfx_v2_persona_service.Prelude.{ℕ, String, Option, none, some, List, [], ◌∷◌, Error, Result}

-- The values that the server puts into the context of a call: of the Accept header, and the names of
-- the content type, the method and the service.
pub record Context : Type 0 where
  pub accept_type : Option String
  pub content_type : Option String
  pub method : Option String
  pub service : Option String

abbrev pub background : Context
background = record { accept_type = none; content_type = none; method = none; service = none }

-- `Service`
pub record Service : Type 0 where
  pub livez : Context → Result String
  pub readyz : Context → Result String

-- `goa.Endpoint` of a method with no payload and a result of bytes.
abbrev pub Endpoint : Type 0
Endpoint = Context → Result String

pub record Endpoints : Type 0 where
  pub livez : Endpoint
  pub readyz : Endpoint

unfoldable pub new_livez_endpoint : Service → Endpoint
new_livez_endpoint s = λ ctx. s.livez ctx

unfoldable pub new_readyz_endpoint : Service → Endpoint
new_readyz_endpoint s = λ ctx. s.readyz ctx

unfoldable pub new_endpoints : Service → Endpoints
unfolding new_livez_endpoint new_readyz_endpoint
new_endpoints s = record { livez = new_livez_endpoint s; readyz = new_readyz_endpoint s }

-- `Endpoints.Use`: a middleware around every endpoint.
unfoldable pub use_endpoints : (Endpoint → Endpoint) → Endpoints → Endpoints
use_endpoints m e = record { livez = m e.livez; readyz = m e.readyz }

-- `APIName`, `APIVersion`, `ServiceName`
abbrev pub api_name : String
api_name = "persona"

abbrev pub api_version : String
api_version = "1.0"

abbrev pub service_name : String
service_name = "persona-service"

-- `MethodNames`
abbrev pub method_names : List String
method_names = "livez" ∷ "readyz" ∷ []

-- `ServiceUnavailable`
pub record ServiceUnavailable : Type 0 where
  pub text : String

-- `GoaErrorName`
unfoldable pub goa_error_name : ServiceUnavailable → String
goa_error_name e = "ServiceUnavailable"

-- The values that are handed to an encoder.
pub data Body : Type 0 where
  bytes : String → Body
  unavailable_body : ServiceUnavailable → Body

-- A response writer: the header as it can still be set, the status with the header as it was sent, and
-- the body written so far.
pub record Writer : Type 0 where
  pub header : List (String × String)
  pub sent : Option (ℕ × List (String × String))
  pub body : String

abbrev pub fresh : Writer
fresh = record { header = []; sent = none; body = "" }

-- `w.Header().Set`; the first entry of a name counts.
unfoldable pub set_header : String → String → Writer → Writer
set_header name value w = record w { header = (name, value) ∷ w.header }

-- `w.WriteHeader`: a second call does nothing.
unfoldable pub write_header : ℕ → Writer → Writer
write_header code w = elim w.sent [ none ↦ record w { sent = some (code, w.header) } | some s ↦ w ]

-- A request as the server sees it; no accept header is the empty text.
pub record Request : Type 0 where
  pub method : String
  pub path : String
  pub accept : String

abbrev pub Handler : Type 0
Handler = Request → Writer → Writer

-- What the program takes from goa: making an encoder, which may set the header; encoding by it; and
-- `goahttp.ErrorEncoder` with a formatter. An encoder returns its error, if any.
pub record Encoding (Formatter : Type 0) : Type 0 where
  pub new_encoder : Context → Writer → Writer
  pub encode : Context → Body → Writer → Option Error × Writer
  pub error_encoder : Option Formatter → Context → Error → Writer → Option Error × Writer

-- The router of goa.
pub record Muxer (M : Type 0) : Type 0 where
  pub handle : String → String → Handler → M → M
  pub serve : M → Handler
