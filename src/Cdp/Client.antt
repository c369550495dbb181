-- ===== src/Cdp/Client.antt =====
-- internal/infrastructure/cdp/client.go: the two calls of the CDP API, over the HTTP client, the URL
-- parser and the token provider that they call.
use lfx_v2_persona_service.Prelude.{
  ℕ, String, ◌<>◌, ◌==◌, Option, none, some, [], ◌∷◌, Slice, same_num, if◌then◌else◌, Result, ok,
  wrapping, ◌>>=◌,
}
use lfx_v2_persona_service.Transport.{HttpClient, instrumented}
use lfx_v2_persona_service.Json.{Bytes, document}
use lfx_v2_persona_service.Json.Decode.{unmarshal}
use lfx_v2_persona_service.Runtime.{Runtime}
use lfx_v2_persona_service.Text.{trim_slashes}
use lfx_v2_persona_service.Query.Client.{HttpResponse, check_status}
use lfx_v2_persona_service.Cdp.{ResolveRequest, ProjectAffiliation}
use lfx_v2_persona_service.Cdp.Wire.{
  encode_resolve_request, decode_resolve_response, empty_resolve_response,
  decode_affiliations_response, empty_affiliations_response,
}

-- A request: its method, URL, bearer token and body. The random request ID is left out.
pub record CdpRequest : Type 0 where
  pub method : String
  pub url : String
  pub authorization : String
  pub body : Option Bytes

pub record CdpClient : Type 0 where
  pub base_url : String
  pub parse_url : String → Result String
  pub token : Result String
  pub send : CdpRequest → Result HttpResponse

-- `ClientConfig`; the token provider by what `Token` gives.
pub record ClientConfig : Type 0 where
  pub base_url : String
  pub token_prov : Result String
  pub http_client : Option HttpClient

-- `NewClient`; `send` is how an HTTP client sends.
unfoldable pub new_client :
    (String → Result String)
    → (HttpClient → CdpRequest → Result HttpResponse)
    → ClientConfig
    → CdpClient
unfolding instrumented
new_client parse_url send cfg = record {
  base_url = trim_slashes cfg.base_url;
  parse_url = parse_url;
  token = cfg.token_prov;
  send = send (instrumented cfg.http_client);
}

abbrev when_set : String → Slice String
when_set s = if s == "" then none else some (s ∷ [])

unfoldable pub resolve_request : String → String → ResolveRequest
resolve_request username email = record { lfids = when_set username; emails = when_set email }

module _ (rt : Runtime) where
  -- What the answer to a resolve request gives: 404 is no profile.
  unfoldable pub resolved_member : ℕ → Bytes → Result String
  unfolding check_status
  resolved_member code body = if same_num code 404 then ok "" else (do
    checked ← check_status "resolve returned" code body
    r ←
        wrapping "unmarshal resolve response"
          (unmarshal rt (decode_resolve_response rt) empty_resolve_response checked)
    ok r.member_id)

  unfoldable pub resolve_member : CdpClient → String → String → Result String
  unfolding resolved_member resolve_request encode_resolve_request
  resolve_member c username email = do
    token ← wrapping "get CDP token" c.token
    let body = document (encode_resolve_request (resolve_request username email))
    u ← wrapping "create resolve request" (c.parse_url (c.base_url <> "/v1/members/resolve"))
    resp ← wrapping "resolve request" (
        c.send (record {
          method = "POST";
          url = u;
          authorization = "Bearer " <> token;
          body = some body;
        }))
    answer ← wrapping "read resolve response" resp.body
    resolved_member resp.status_code answer

  unfoldable pub get_project_affiliations : CdpClient → String → Result (Slice ProjectAffiliation)
  unfolding check_status
  get_project_affiliations c member_id = do
    token ← wrapping "get CDP token" c.token
    u ←
        wrapping "create affiliations request"
          (c.parse_url (c.base_url <> "/v1/members/" <> member_id <> "/project-affiliations"))
    resp ← wrapping "affiliations request" (
        c.send
          (record { method = "GET"; url = u; authorization = "Bearer " <> token; body = none }))
    answer ← wrapping "read affiliations response" resp.body
    checked ← check_status "affiliations returned" resp.status_code answer
    r ←
        wrapping "unmarshal affiliations response"
          (unmarshal rt (decode_affiliations_response rt) empty_affiliations_response checked)
    ok r.project_affiliations
