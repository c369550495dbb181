-- ===== src/Query/Client.antt =====
-- internal/infrastructure/query/client.go: the search, over the HTTP client that it calls.
use lfx_v2_persona_service.Prelude.{
  ℕ, String, ◌<>◌, ◌==◌, Option, none, some, List, [], ◌∷◌, ◌++◌, Slice, same_num, if◌then◌else◌,
  Result, ok, err, status, wrapping, ◌>>=◌, ◌>>◌,
}
use lfx_v2_persona_service.Transport.{HttpClient, instrumented}
use lfx_v2_persona_service.Json.{Bytes}
use lfx_v2_persona_service.Json.Decode.{unmarshal}
use lfx_v2_persona_service.Runtime.{Runtime}
use lfx_v2_persona_service.Text.{join, trim_slashes}
use lfx_v2_persona_service.Query.{Resource}
use lfx_v2_persona_service.Query.Tables.{empty_resource_response, decode_resource_response}

pub record SearchParams : Type 0 where
  pub kind : String
  pub tags_all : List String
  pub filters : List String

-- A request of the search: its URL, the query's parameters by name before `url.Values` escapes them,
-- and the Authorization header.
pub record SearchRequest : Type 0 where
  pub url : String
  pub query : List (String × String)
  pub authorization : Option String

-- The status of a response, and its body or the error of reading it.
pub record HttpResponse : Type 0 where
  pub status_code : ℕ
  pub body : Result Bytes

-- A client, with what it is given: the URL parser (which `http.NewRequestWithContext` calls again),
-- the source of tokens, if any, and the transport.
pub record QueryClient : Type 0 where
  pub base_url : String
  pub parse_url : String → Result String
  pub token_func : Option (Result String)
  pub send : SearchRequest → Result HttpResponse

-- `ClientConfig`
pub record ClientConfig : Type 0 where
  pub base_url : String
  pub token_func : Option (Result String)
  pub http_client : Option HttpClient

-- `NewClient`; `send` is how an HTTP client sends.
unfoldable pub new_client :
    (String → Result String)
    → (HttpClient → SearchRequest → Result HttpResponse)
    → ClientConfig
    → QueryClient
unfolding instrumented
new_client parse_url send cfg = record {
  base_url = trim_slashes cfg.base_url;
  parse_url = parse_url;
  token_func = cfg.token_func;
  send = send (instrumented cfg.http_client);
}

abbrev when_set : String → String → List (String × String)
when_set key value = if value == "" then [] else (key, value) ∷ []

abbrev when_any : String → List String → List (String × String)
when_any key [] = []
when_any key (v ∷ vs) = (key, join "," (v ∷ vs)) ∷ []

unfoldable pub search_query : SearchParams → List (String × String)
search_query params =
    (("v", "1") ∷ when_set "type" params.kind)
    ++ (when_any "tags_all" params.tags_all ++ when_any "filters" params.filters)

authorize : Option (Result String) → Result (Option String)
authorize none = ok none
authorize (some token) =
    wrapping "get query service token" token >>= λ t. ok (some ("Bearer " <> t))

-- What the status says of a body that was read.
unfoldable pub check_status : String → ℕ → Bytes → Result Bytes
check_status text code body = if same_num code 200 then ok body else err (status text code)

module _ (rt : Runtime) where
  unfoldable pub search : QueryClient → SearchParams → Result (Slice Resource)
  unfolding authorize check_status search_query
  search c params = do
    u ← wrapping "parse query URL" (c.parse_url (c.base_url <> "/query/resources"))
    wrapping "create query request" (c.parse_url u)
    auth ← authorize c.token_func
    resp ←
        wrapping "query request"
          (c.send (record { url = u; query = search_query params; authorization = auth }))
    body ← wrapping "read query response" resp.body
    checked ← check_status "query returned" resp.status_code body
    result ←
        wrapping "unmarshal query response"
          (unmarshal rt (decode_resource_response rt) empty_resource_response checked)
    ok result.resources
