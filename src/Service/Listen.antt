-- ===== src/Service/Listen.antt =====
-- cmd/server/http.go: the HTTP server of the health endpoints, up to `ListenAndServe`.
use lfx_v2_persona_service.Prelude.{ℕ, ◌*◌, ◌^◌, String, Bool, none, some, if◌then◌else◌}
use lfx_v2_persona_service.Http.{Service, Endpoints, Handler, Encoding, Muxer}
use lfx_v2_persona_service.Http.Server.{ErrorHandler, new_server, mount}
use lfx_v2_persona_service.Service.Health.{PersonaService, livez, readyz}

-- `personaSvc` as the interface of the generated code.
unfoldable pub health_service : {Bucket : Type 0} → PersonaService Bucket → Service
health_service s = record { livez = λ ctx. livez s; readyz = λ ctx. readyz s }

-- What the libraries make: an empty router, its debug handlers, and the handlers that wrap another.
pub record Middleware (M : Type 0) : Type 0 where
  pub new_muxer : M
  pub mount_pprof_handlers : M → M
  pub mount_debug_log_enabler : M → M
  pub debug_http : Handler → Handler
  pub otel_handler : String → Handler → Handler

-- `http.Server`; the timeout is in nanoseconds.
pub record HttpServer : Type 0 where
  pub addr : String
  pub handler : Handler
  pub read_header_timeout : ℕ

-- `errorHandler`: the error is only logged.
abbrev pub error_handler : ErrorHandler
error_handler = some (λ ctx w e. w)

module _ {M Formatter : Type 0} (mw : Middleware M) (mux : Muxer M) (lib : Encoding Formatter) where
  -- `handleHTTPServer`: the server that it starts.
  unfoldable pub handle_http_server : String → Endpoints → Bool → HttpServer
  unfolding new_server mount
  handle_http_server host endpoints dbg =
      let m =
        if dbg
        then mw.mount_debug_log_enabler (mw.mount_pprof_handlers mw.new_muxer)
        else mw.new_muxer in
      let server = new_server endpoints lib error_handler none in
      let routed = mux.serve (mount mux server m) in
      let handler = if dbg then mw.debug_http routed else routed in
      record {
        addr = host;
        handler = mw.otel_handler "persona-service" handler;
        read_header_timeout = 60 * 10 ^ 9;
      }
