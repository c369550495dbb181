-- ===== src/Http/Server.antt =====
-- gen/http/persona_service/server: the encoders of the responses, the handlers and their mounting; and
-- the HTTP server that cmd/server/http.go makes of them.
use lfx_v2_persona_service.Prelude.{
  String, ◌==◌, Option, none, some, List, [], ◌∷◌, if◌then◌else◌, Error, message, status, wrap,
  unavailable, ok, err,
}
use lfx_v2_persona_service.Http.{
  Context, background, Endpoint, Endpoints, ServiceUnavailable, goa_error_name, bytes,
  unavailable_body, Writer, set_header, write_header, Request, Handler, Encoding, Muxer,
}

-- `errors.As` with a `GoaErrorNamer`: the first link of the chain that has a name for goa.
unfoldable pub as_namer : Error → Option ServiceUnavailable
as_namer (message text) = none
as_namer (status text code) = none
as_namer (wrap text e) = as_namer e
as_namer (unavailable text) = some (record { text = text })

-- `LivezPersonaServicePath`, `ReadyzPersonaServicePath`
abbrev pub livez_persona_service_path : String
livez_persona_service_path = "/livez"

abbrev pub readyz_persona_service_path : String
readyz_persona_service_path = "/readyz"

-- `errhandler`, which may be nil.
abbrev pub ErrorHandler : Type 0
ErrorHandler = Option (Context → Writer → Error → Writer)

-- `if err != nil && errhandler != nil { errhandler(ctx, w, err) }`
unfoldable pub handle_failure : ErrorHandler → Context → Option Error × Writer → Writer
handle_failure errhandler ctx (none, w) = w
handle_failure none ctx (some e, w) = w
handle_failure (some f) ctx (some e, w) = f ctx w e

-- The context that a handler makes of that of the request.
unfoldable pub call_context : String → Request → Context
call_context method r = record background {
  accept_type = some r.accept;
  method = some method;
  service = some "persona-service";
}

module _ {Formatter : Type 0} (lib : Encoding Formatter) where
  unfoldable pub encode_livez_response : Context → Writer → String → Option Error × Writer
  unfolding write_header
  encode_livez_response ctx w res =
      let ctx' = record ctx { content_type = some "text/plain" } in
      let w' = lib.new_encoder ctx' w in lib.encode ctx' (bytes res) (write_header 200 w')

  unfoldable pub encode_readyz_response : Context → Writer → String → Option Error × Writer
  unfolding write_header
  encode_readyz_response ctx w res =
      let ctx' = record ctx { content_type = some "text/plain" } in
      let w' = lib.new_encoder ctx' w in lib.encode ctx' (bytes res) (write_header 200 w')

  -- The case of `ServiceUnavailable`.
  unfoldable pub encode_unavailable : Context → Writer → ServiceUnavailable → Option Error × Writer
  unfolding write_header set_header goa_error_name
  encode_unavailable ctx w res =
      let ctx' = record ctx { content_type = some "text/plain" } in
      let w' = lib.new_encoder ctx' w in
      lib.encode ctx' (unavailable_body res)
        (write_header 503 (set_header "goa-error" (goa_error_name res) w'))

  module _ (formatter : Option Formatter) where
    unfoldable pub encode_readyz_error : Context → Writer → Error → Option Error × Writer
    unfolding as_namer encode_unavailable goa_error_name
    encode_readyz_error ctx w v = elim (as_namer v) [
      | none ↦ lib.error_encoder formatter ctx v w
      | some en ↦
          if goa_error_name en == "ServiceUnavailable"
          then encode_unavailable ctx w en
          else lib.error_encoder formatter ctx v w
    ]

    module _ (errhandler : ErrorHandler) where
      unfoldable pub new_livez_handler : Endpoint → Handler
      unfolding call_context handle_failure encode_livez_response
      new_livez_handler endpoint r w =
          let ctx = call_context "livez" r in
          elim (endpoint ctx) [
            | err e ↦ handle_failure errhandler ctx (lib.error_encoder formatter ctx e w)
            | ok res ↦ handle_failure errhandler ctx (encode_livez_response ctx w res)
          ]

      unfoldable pub new_readyz_handler : Endpoint → Handler
      unfolding call_context handle_failure encode_readyz_response encode_readyz_error
      new_readyz_handler endpoint r w =
          let ctx = call_context "readyz" r in
          elim (endpoint ctx) [
            | err e ↦ handle_failure errhandler ctx (encode_readyz_error ctx w e)
            | ok res ↦ handle_failure errhandler ctx (encode_readyz_response ctx w res)
          ]

pub record MountPoint : Type 0 where
  pub method : String
  pub verb : String
  pub pattern : String

pub record Server : Type 0 where
  pub mounts : List MountPoint
  pub livez : Handler
  pub readyz : Handler

-- `New`
unfoldable pub new_server :
    {Formatter : Type 0} → Endpoints → Encoding Formatter → ErrorHandler → Option Formatter → Server
unfolding new_livez_handler new_readyz_handler
new_server e lib errhandler formatter = record {
  mounts =
      record { method = "Livez"; verb = "GET"; pattern = "/livez" }
      ∷ record { method = "Readyz"; verb = "GET"; pattern = "/readyz" }
      ∷ [];
  livez = new_livez_handler lib formatter errhandler e.livez;
  readyz = new_readyz_handler lib formatter errhandler e.readyz;
}

-- `Server.Use`: a middleware around every handler.
unfoldable pub use_server : (Handler → Handler) → Server → Server
use_server m s = record s { livez = m s.livez; readyz = m s.readyz }

module _ {M : Type 0} (mux : Muxer M) where
  unfoldable pub mount_livez_handler : Handler → M → M
  mount_livez_handler h = mux.handle "GET" "/livez" (λ r w. h r w)

  unfoldable pub mount_readyz_handler : Handler → M → M
  mount_readyz_handler h = mux.handle "GET" "/readyz" (λ r w. h r w)

  -- `Mount`
  unfoldable pub mount : Server → M → M
  unfolding mount_livez_handler mount_readyz_handler
  mount h m = mount_readyz_handler h.readyz (mount_livez_handler h.livez m)
