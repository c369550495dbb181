-- ===== src/Tests/Servers.antt =====
-- The HTTP server of the health endpoints, its generated client and command line, at a router, an encoder
-- and a decoder of plain text.
use mathlib.Core.List.{Memᴰ, map}
use lfx_v2_persona_service.Prelude.{
  String, ◌==◌, eq_iff, ==_of_ne, Bool, true, false, ◌&&◌, none, some, List, [], ◌∷◌, if◌then◌else◌,
  ◌≡◌, refl, sym, ok, err, unavailable,
}
use lfx_v2_persona_service.Errors.{error_text}
use lfx_v2_persona_service.Nats.{NatsClient}
use lfx_v2_persona_service.Flags.{Value, parsed, of_bool, parse}
use lfx_v2_persona_service.Http.{
  Service, method_names, api_name, api_version, service_name, goa_error_name, Body, bytes,
  unavailable_body, Writer, fresh, write_header, Handler, Encoding, Muxer, new_endpoints,
}
use lfx_v2_persona_service.Http.Contracts.{status_of, IsRouter, IsEncoding}
use lfx_v2_persona_service.Http.Server.{as_namer, new_server, mount}
use lfx_v2_persona_service.Http.Client.{
  Decoder, Client, answered, read_all, new_client, livez, readyz, new_service_client, call_livez,
  call_readyz,
}
use lfx_v2_persona_service.Http.Client.Decoding.{IsUnavailable}
use lfx_v2_persona_service.Http.Transport.{doer}
use lfx_v2_persona_service.Http.Design.{readyz_method, persona_api, persona_service}
use lfx_v2_persona_service.Http.Design.Conformance.{serve-design}
use lfx_v2_persona_service.Http.RoundTrip.{ReadsText, client-server}
use lfx_v2_persona_service.Http.Cli.{endpoint, parse_endpoint}
use lfx_v2_persona_service.Http.Cli.Usage.{usage_examples}
use lfx_v2_persona_service.Text.{split}
use lfx_v2_persona_service.Http.Cli.Commands.{IsCallOf, parse_endpoint-IsCallOf}
use lfx_v2_persona_service.Service.Health.{PersonaService}
use lfx_v2_persona_service.Service.Listen.{
  Middleware, error_handler, health_service, handle_http_server,
}
use lfx_v2_persona_service.Service.Startup.{Started, start_up}
use lfx_v2_persona_service.Service.Startup.Readiness.{started_probe}
use lfx_v2_persona_service.Service.Probes.{
  error_handler-IsSettled, IsTransparent, readiness, probe_answer,
}

-- The routes, the latest first; any other request gets the status 404.
abbrev Routes : Type 0
Routes = List (String × String × Handler)

serve_routes : Routes → Handler
unfolding write_header
serve_routes [] r w = write_header 404 w
serve_routes ((verb, pattern, h) ∷ m) r w =
    if verb == r.method && pattern == r.path then h r w else serve_routes m r w

abbrev routes : Muxer Routes
routes = record { handle = λ verb pattern h m. (verb, pattern, h) ∷ m; serve = serve_routes }

serve_routes-matched :
    (b c : Bool) (x y : Writer) → b ≡ true → c ≡ true → (if b && c then x else y) ≡ x
serve_routes-matched b c x y p q = rw (p, q) refl

serve_routes-passed : (b c : Bool) (x y : Writer) → c ≡ false → (if b && c then x else y) ≡ y
serve_routes-passed true c x y q = rw q refl
serve_routes-passed false c x y q = refl

routes-IsRouter : IsRouter routes
unfolding serve_routes
routes-IsRouter = record {
  matched = λ verb pattern h m r w _ get path.
      serve_routes-matched (verb == r.method) (pattern == r.path) _ _ ((eq_iff _ _).1 (sym get))
        ((eq_iff _ _).1 (sym path));
  passed = λ verb pattern h m r w _ other.
      serve_routes-passed (verb == r.method) (pattern == r.path) _ _
        (==_of_ne pattern r.path (λ e. other (sym e)));
}

abbrev body_text : Body → String
body_text (bytes s) = s
body_text (unavailable_body e) = e.text

abbrev plain_text : Encoding Unit
plain_text = record {
  new_encoder = λ ctx w. record w { header = ("Content-Type", "text/plain") ∷ w.header };
  encode = λ ctx b w. (none, record w { body = body_text b });
  error_encoder = λ formatter ctx e w. (none, record (write_header 500 w) { body = error_text e });
}

plain_text-IsEncoding : IsEncoding plain_text
unfolding write_header
plain_text-IsEncoding = record {
  quiet = λ ctx w. refl;
  keeps = λ ctx b w _. refl;
  fault = λ ctx e w unsent. rw (write_header, unsent) refl;
}

abbrev text_decoder : Decoder
text_decoder = record {
  decode_bytes = λ resp. ok (read_all resp.body).0;
  decode_string = λ resp. ok (read_all resp.body).0;
}

plain_text-ReadsText : ReadsText plain_text text_decoder
unfolding write_header read_all
plain_text-ReadsText = record { reads = λ ctx code text _. refl }

-- A service that is alive and says that it is unavailable.
abbrev draining : Service
draining = record { livez = λ ctx. ok "OK"; readyz = λ ctx. err (unavailable "draining") }

abbrev draining_client : Client
draining_client =
    new_client "http" "localhost:8080"
      (doer (
        routes.serve
          (mount routes (new_server (new_endpoints draining) plain_text error_handler none) [])))
      text_decoder true (λ u. none)

client-server_example :
    let client = new_service_client (livez draining_client) (readyz draining_client) in
    (call_livez client ≡ answered "OK") × IsUnavailable (call_readyz client)
unfolding as_namer
client-server_example =
    client-server routes routes-IsRouter plain_text plain_text-IsEncoding text_decoder
      plain_text-ReadsText error_handler error_handler-IsSettled draining [] "http" "localhost:8080"
      true (λ u. none) (λ path. refl)

-- A service that says why it is unavailable answers the readiness probe with 503.
serve-design_example :
    status_of (
      routes.serve
        (mount routes (new_server (new_endpoints draining) plain_text error_handler none) [])
        (record { method = "GET"; path = "/readyz"; accept = "" })
        fresh)
    ≡ some 503
unfolding as_namer goa_error_name
serve-design_example =
    serve-design routes routes-IsRouter plain_text plain_text-IsEncoding error_handler
      error_handler-IsSettled draining [] readyz_method (Memᴰ.tail (Memᴰ.head refl))
      (record { method = "GET"; path = "/readyz"; accept = "" }) fresh refl refl refl

-- The example of the usage calls the liveness endpoint.
usage_examples_parse :
    (map (split 32) (split 10 (usage_examples "persona"))
      ≡ ("persona" ∷ "persona-service" ∷ "livez" ∷ []) ∷ ("" ∷ []) ∷ [])
    × (parse_endpoint []
          ("persona-service" ∷ "livez" ∷ [])
          "http"
          "localhost:8080"
          (doer (
            routes.serve (
              mount routes (new_server (new_endpoints draining) plain_text error_handler none) [])))
          text_decoder
          true
          (λ u. none)
        ≡ endpoint (livez draining_client))
unfolding usage_examples split parse_endpoint parse
usage_examples_parse = (refl, refl)

-- The constants of gen/persona_service are those of the design.
names_agree :
    (api_name ≡ persona_api.name)
    × (api_version ≡ persona_api.version)
    × (service_name ≡ persona_service.name)
    × (method_names ≡ map (λ d. d.name) persona_service.methods)
names_agree = (refl, refl, refl, refl)

-- `-v persona-service -- readyz`, with a Boolean flag of the command line.
abbrev arguments : List String
arguments = "-v" ∷ "persona-service" ∷ "--" ∷ "readyz" ∷ []

parse_endpoint-IsCallOf_example :
    (vs : List (String × Value)) × (words : List String) × (parse (("v", of_bool) ∷ []) arguments
      ≡ parsed vs words)
    × IsCallOf draining_client words (readyz draining_client)
unfolding parse_endpoint parse
parse_endpoint-IsCallOf_example =
    parse_endpoint-IsCallOf (("v", of_bool) ∷ []) arguments "http" "localhost:8080"
      (doer (
        routes.serve
          (mount routes (new_server (new_endpoints draining) plain_text error_handler none) [])))
      text_decoder true (λ u. none) (readyz draining_client) refl

abbrev middleware : Middleware Routes
middleware = record {
  new_muxer = [];
  mount_pprof_handlers = λ m. m;
  mount_debug_log_enabler = λ m. m;
  debug_http = λ h. h;
  otel_handler = λ name h. h;
}

middleware-IsTransparent : IsTransparent middleware
middleware-IsTransparent = record { debug = λ h r w. refl; otel = λ name h r w. refl }

abbrev unconnected : PersonaService Unit
unconnected = record { nats_client = some (record { conn = none; kv_store = [] }) }

-- A service whose client is not connected answers the readiness probe with 500.
probe_answer_example :
    let http =
      handle_http_server middleware routes plain_text ":8080"
        (new_endpoints (health_service unconnected))
        true in
    status_of (http.handler (record { method = "GET"; path = "/readyz"; accept = "" }) fresh)
    ≡ some 500
probe_answer_example =
    probe_answer middleware routes plain_text middleware-IsTransparent routes-IsRouter
      plain_text-IsEncoding unconnected ":8080" true readiness
      (record { method = "GET"; path = "/readyz"; accept = "" }) fresh refl refl refl

abbrev closed_client : NatsClient Unit
closed_client = record { conn = none; kv_store = [] }

abbrev started : Started Unit
started = record { health = record { nats_client = none }; nats_client = some closed_client }

started_probe_example :
    let http =
      handle_http_server middleware routes plain_text ":8080"
        (new_endpoints (health_service started.health))
        false in
    status_of (http.handler (record { method = "GET"; path = "/readyz"; accept = "" }) fresh)
    ≡ some 200
unfolding start_up
started_probe_example =
    started_probe middleware routes plain_text middleware-IsTransparent routes-IsRouter
      plain_text-IsEncoding (ok closed_client) started ":8080" false readiness
      (record { method = "GET"; path = "/readyz"; accept = "" }) fresh refl refl refl refl
