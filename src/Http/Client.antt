-- ===== src/Http/Client.antt =====
-- gen/http/persona_service/client: the HTTP client of the health service, and gen/persona_service/client.go
-- around its endpoints.
pub mod Decoding
use lfx_v2_persona_service.Prelude.{
  ℕ, String, Bool, true, false, Option, none, some, List, same_num, if◌then◌else◌, Error, message,
  Result, ok, err,
}
use lfx_v2_persona_service.Http.{ServiceUnavailable}
use lfx_v2_persona_service.Http.Server.{livez_persona_service_path, readyz_persona_service_path}

-- `url.URL`, of which the requests set these fields.
pub record Url : Type 0 where
  pub scheme : String
  pub host : String
  pub path : String

-- A request that is sent; its context is left out.
pub record ClientRequest : Type 0 where
  pub method : String
  pub url : Url

-- The body of a response: what is left to read and the error that ends it, if any, or closed.
pub data Stream : Type 0 where
  open_ : String → Option Error → Stream
  closed : Stream

pub record Response : Type 0 where
  pub status_code : ℕ
  pub header : List (String × String)
  pub body : Stream

-- `io.ReadAll`: what was read, and an error.
unfoldable pub read_all : Stream → String × Option Error
read_all (open_ s e) = (s, e)
read_all closed = ("", some (message "http: read on closed response body"))

-- What goa's decoder of a response gives for a target of type []byte and one of type string.
pub record Decoder : Type 0 where
  pub decode_bytes : Response → Result String
  pub decode_string : Response → Result String

-- The errors of an endpoint of the client, most of them made by goa.
pub data ClientError : Type 0 where
  invalid_url : String → String → Url → Error → ClientError
  request_error : String → String → Error → ClientError
  read_error : Error → ClientError
  decoding_error : String → String → Error → ClientError
  invalid_response : String → String → ℕ → String → ClientError
  service_unavailable : ServiceUnavailable → ClientError

pub data Outcome (A : Type 0) : Type 0 where
  answered : A → Outcome A
  failed : ClientError → Outcome A

infixl 5 ◌>>=◌
abbrev pub ◌>>=◌ : {A B : Type 0} → Outcome A → (A → Outcome B) → Outcome B
answered a >>= f = f a
failed e >>= f = failed e

-- `NewReadyzServiceUnavailable`
unfoldable pub new_readyz_service_unavailable : String → ServiceUnavailable
new_readyz_service_unavailable body = record { text = body }

-- `restoreBody`: the response to decode and what its body is afterwards; or the error of reading it.
unfoldable pub restored : Bool → Response → Result (Response × Stream)
unfolding read_all
restored false resp = ok (resp, closed)
restored true resp =
    let (b, e) = read_all resp.body in
    elim e [ some f ↦ err f | none ↦ ok (record resp { body = open_ b none }, open_ b none) ]

decoded : String → Result String → Outcome String
decoded method (ok body) = answered body
decoded method (err e) = failed (decoding_error "persona-service" method e)

decoded_unavailable : Result String → Outcome String
unfolding new_readyz_service_unavailable
decoded_unavailable (ok body) = failed (service_unavailable (new_readyz_service_unavailable body))
decoded_unavailable (err e) = failed (decoding_error "persona-service" "readyz" e)

module _ (decoder : Decoder) where
  decode_livez_status : Response → Outcome String
  unfolding decoded read_all
  decode_livez_status resp =
      if same_num resp.status_code 200
      then decoded "livez" (decoder.decode_bytes resp)
      else failed
          (invalid_response "persona-service" "livez" resp.status_code (read_all resp.body).0)

  decode_readyz_status : Response → Outcome String
  unfolding decoded decoded_unavailable read_all
  decode_readyz_status resp =
      if same_num resp.status_code 200
      then decoded "readyz" (decoder.decode_bytes resp)
      else if same_num resp.status_code 503
      then decoded_unavailable (decoder.decode_string resp)
      else failed
          (invalid_response "persona-service" "readyz" resp.status_code (read_all resp.body).0)

  -- The result, and the body of the response afterwards: with an error of its reading it is left read.
  unfoldable pub decode_livez_response : Bool → Response → Outcome String × Stream
  unfolding restored decode_livez_status
  decode_livez_response restore_body resp = elim (restored restore_body resp) [
    | err e ↦ (failed (read_error e), open_ "" (some e))
    | ok (r, after) ↦ (decode_livez_status r, after)
  ]

  unfoldable pub decode_readyz_response : Bool → Response → Outcome String × Stream
  unfolding restored decode_readyz_status
  decode_readyz_response restore_body resp = elim (restored restore_body resp) [
    | err e ↦ (failed (read_error e), open_ "" (some e))
    | ok (r, after) ↦ (decode_readyz_status r, after)
  ]

-- `goahttp.Doer`
abbrev pub Doer : Type 0
Doer = ClientRequest → Result Response

-- The client, with what it takes of net/http: the error of making a request for a URL, if any.
pub record Client : Type 0 where
  pub livez_doer : Doer
  pub readyz_doer : Doer
  pub restore_response_body : Bool
  pub scheme : String
  pub host : String
  pub decoder : Decoder
  pub new_request : Url → Option Error

-- `NewClient`; no endpoint encodes a request, so the encoder is left out.
unfoldable pub new_client : String → String → Doer → Decoder → Bool → (Url → Option Error) → Client
new_client scheme host doer dec restore_body new_request = record {
  livez_doer = doer;
  readyz_doer = doer;
  restore_response_body = restore_body;
  scheme = scheme;
  host = host;
  decoder = dec;
  new_request = new_request;
}

unfoldable pub build_livez_request : Client → Outcome ClientRequest
build_livez_request c =
    let u : Url = record { scheme = c.scheme; host = c.host; path = livez_persona_service_path } in
    elim (c.new_request u) [
      | some e ↦ failed (invalid_url "persona-service" "livez" u e)
      | none ↦ answered (record { method = "GET"; url = u })
    ]

unfoldable pub build_readyz_request : Client → Outcome ClientRequest
build_readyz_request c =
    let u : Url = record { scheme = c.scheme; host = c.host; path = readyz_persona_service_path } in
    elim (c.new_request u) [
      | some e ↦ failed (invalid_url "persona-service" "readyz" u e)
      | none ↦ answered (record { method = "GET"; url = u })
    ]

-- `Do`, with the error that the endpoint of a method makes of its own.
unfoldable pub do_request : String → Doer → ClientRequest → Outcome Response
do_request method doer req = elim (doer req) [
  | err e ↦ failed (request_error "persona-service" method e)
  | ok resp ↦ answered resp
]

-- The endpoints that `Livez` and `Readyz` return.
unfoldable pub livez : Client → Outcome String
unfolding build_livez_request do_request decode_livez_response
livez c = do
  req ← build_livez_request c
  resp ← do_request "livez" c.livez_doer req
  (decode_livez_response c.decoder c.restore_response_body resp).0

unfoldable pub readyz : Client → Outcome String
unfolding build_readyz_request do_request decode_readyz_response
readyz c = do
  req ← build_readyz_request c
  resp ← do_request "readyz" c.readyz_doer req
  (decode_readyz_response c.decoder c.restore_response_body resp).0

-- `Client` of the package personaservice, around two endpoints.
pub record ServiceClient : Type 0 where
  pub livez_endpoint : Outcome String
  pub readyz_endpoint : Outcome String

-- `personaservice.NewClient`
unfoldable pub new_service_client : Outcome String → Outcome String → ServiceClient
new_service_client livez readyz = record { livez_endpoint = livez; readyz_endpoint = readyz }

-- Its methods: an endpoint answers with bytes, or fails.
unfoldable pub call_livez : ServiceClient → Outcome String
call_livez c = do ires ← c.livez_endpoint; answered ires

unfoldable pub call_readyz : ServiceClient → Outcome String
call_readyz c = do ires ← c.readyz_endpoint; answered ires
