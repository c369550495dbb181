-- ===== src/Http/Replies.antt =====
-- What the handlers of gen/http/persona_service/server do with a result of the service.
use lfx_v2_persona_service.Prelude.{String, Option, none, ◌≡◌, refl, Error, Result, ok, err}
use lfx_v2_persona_service.Http.{
  Context, Service, new_endpoints, new_livez_endpoint, new_readyz_endpoint, Writer, Request,
  Encoding,
}
use lfx_v2_persona_service.Http.Server.{
  ErrorHandler, handle_failure, call_context, Server, new_server, new_livez_handler,
  new_readyz_handler, encode_livez_response, encode_readyz_response, encode_readyz_error,
}

module _ {Formatter : Type 0} (lib : Encoding Formatter) (ctx : Context) (w : Writer) where
  abbrev pub livez_reply_to : Result String → Option Error × Writer
  livez_reply_to (ok b) = encode_livez_response lib ctx w b
  livez_reply_to (err f) = lib.error_encoder none ctx f w

  abbrev pub readyz_reply_to : Result String → Option Error × Writer
  readyz_reply_to (ok b) = encode_readyz_response lib ctx w b
  readyz_reply_to (err f) = encode_readyz_error lib none ctx w f

-- An error handler that leaves the response as it is.
abbrev pub IsSettled : ErrorHandler → Type 0
IsSettled errhandler =
    (ctx : Context) (a : Option Error × Writer) → handle_failure errhandler ctx a ≡ a.1

module _ {Formatter : Type 0} (lib : Encoding Formatter) (errhandler : ErrorHandler)
    (settled : IsSettled errhandler) (s : Service) (r : Request) (w : Writer) where
  abbrev server : Server
  server = new_server (new_endpoints s) lib errhandler none

  livez_reply_of :
      (a : Result String)
      → s.livez (call_context "livez" r) ≡ a
      → server.livez r w ≡ (livez_reply_to lib (call_context "livez" r) w a).1
  unfolding new_server new_livez_handler new_endpoints new_livez_endpoint
  livez_reply_of (ok b) e =
      rw (new_server, new_endpoints, new_livez_handler, new_livez_endpoint, e) (settled _ _)
  livez_reply_of (err f) e =
      rw (new_server, new_endpoints, new_livez_handler, new_livez_endpoint, e) (settled _ _)

  readyz_reply_of :
      (a : Result String)
      → s.readyz (call_context "readyz" r) ≡ a
      → server.readyz r w ≡ (readyz_reply_to lib (call_context "readyz" r) w a).1
  unfolding new_server new_readyz_handler new_endpoints new_readyz_endpoint
  readyz_reply_of (ok b) e =
      rw (new_server, new_endpoints, new_readyz_handler, new_readyz_endpoint, e) (settled _ _)
  readyz_reply_of (err f) e =
      rw (new_server, new_endpoints, new_readyz_handler, new_readyz_endpoint, e) (settled _ _)

  pub livez_reply :
      let ctx = call_context "livez" r in
      server.livez r w ≡ (livez_reply_to lib ctx w (s.livez ctx)).1
  livez_reply = livez_reply_of _ refl

  pub readyz_reply :
      let ctx = call_context "readyz" r in
      server.readyz r w ≡ (readyz_reply_to lib ctx w (s.readyz ctx)).1
  readyz_reply = readyz_reply_of _ refl
