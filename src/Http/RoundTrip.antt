-- ===== src/Http/RoundTrip.antt =====
-- A client of gen/http/persona_service/client that calls the server of gen/http/persona_service/server.
use mathlib.Core.Path.{subst}
use lfx_v2_persona_service.Prelude.{
  ℕ, String, Bool, Option, none, some, ◌≡◌, refl, ap, sym, ◌∙◌, Error, Result, ok, err,
}
use lfx_v2_persona_service.Http.{
  Context, Service, new_endpoints, fresh, write_header, Encoding, Muxer, bytes, ServiceUnavailable,
}
use lfx_v2_persona_service.Http.Contracts.{status_of, IsRouter, IsEncoding}
use lfx_v2_persona_service.Http.Status.{
  answer_status, nameless_error, named_error, unavailable_status,
}
use lfx_v2_persona_service.Http.Server.{
  as_namer, ErrorHandler, call_context, Server, new_server, encode_livez_response,
  encode_readyz_response, encode_readyz_error, mount,
}
use lfx_v2_persona_service.Http.Client.{
  Decoder, Outcome, answered, Url, new_client, livez, readyz, new_service_client, call_livez,
  call_readyz, decode_livez_response, decode_readyz_response,
}
use lfx_v2_persona_service.Http.Client.Decoding.{IsInvalid, IsUnavailable}
use lfx_v2_persona_service.Http.Routing.{serve-livez, serve-readyz}
use lfx_v2_persona_service.Http.Replies.{
  IsSettled, livez_reply_to, readyz_reply_to, livez_reply, readyz_reply,
}
use lfx_v2_persona_service.Http.Transport.{
  response_of, doer, call, relayed, livez_sent, readyz_sent, livez_of_200, readyz_of_200,
  livez_of_500, readyz_of_500, readyz_of_503,
}

-- The decoder reads a text that the server sent as plain text.
pub record ReadsText {Formatter : Type 0} (lib : Encoding Formatter) (decoder : Decoder)
    : Type 0 where
  pub reads :
      (ctx : Context) (code : ℕ) (text : String)
      → ctx.content_type ≡ some "text/plain"
      → decoder.decode_bytes (
          response_of
            (lib.encode ctx (bytes text) (write_header code (lib.new_encoder ctx fresh))).1)
        ≡ ok text

-- What a client has of a result of the service: the bytes, or a failure with the status 500; only of
-- `Readyz` it can learn that the service is unavailable.
abbrev pub IsLivezAnswer : Result String → Outcome String → Type 0
IsLivezAnswer (ok b) o = o ≡ answered b
IsLivezAnswer (err e) o = IsInvalid "livez" 500 o

abbrev pub IsFailure : Option ServiceUnavailable → Outcome String → Type 0
IsFailure none o = IsInvalid "readyz" 500 o
IsFailure (some n) o = IsUnavailable o

abbrev pub IsReadyzAnswer : Result String → Outcome String → Type 0
IsReadyzAnswer (ok b) o = o ≡ answered b
IsReadyzAnswer (err e) o = IsFailure (as_namer e) o

module _ {Formatter : Type 0} (lib : Encoding Formatter) (encoding : IsEncoding lib)
    (decoder : Decoder) (reads : ReadsText lib decoder) (restore_body : Bool) (ctx : Context) where
  readyz-IsFailure :
      (n : Option ServiceUnavailable) (v : Error)
      → as_namer v ≡ n
      → IsFailure n
          (decode_readyz_response decoder restore_body
            (response_of (encode_readyz_error lib none ctx fresh v).1)).0
  readyz-IsFailure none v e =
      readyz_of_500 decoder restore_body _ (
        ap (λ a. status_of a.1) (nameless_error lib ctx fresh v e)
        ∙ encoding.fault ctx v fresh refl)
  readyz-IsFailure (some n) v e = readyz_of_503 decoder restore_body _ (
      ap (λ a. status_of a.1) (named_error lib ctx fresh v n e)
      ∙ unavailable_status lib encoding ctx fresh n refl)

  livez_result :
      (a : Result String)
      → IsLivezAnswer a
          (decode_livez_response decoder restore_body
            (response_of (livez_reply_to lib ctx fresh a).1)).0
  unfolding encode_livez_response
  livez_result (ok b) =
      livez_of_200 decoder restore_body _ b (answer_status lib encoding _ (bytes b) 200 fresh refl)
        (reads.reads _ 200 b refl)
  livez_result (err f) =
      livez_of_500 decoder restore_body (lib.error_encoder none ctx f fresh).1
        (encoding.fault ctx f fresh refl)

  readyz_result :
      (a : Result String)
      → IsReadyzAnswer a
          (decode_readyz_response decoder restore_body
            (response_of (readyz_reply_to lib ctx fresh a).1)).0
  unfolding encode_readyz_response
  readyz_result (ok b) =
      readyz_of_200 decoder restore_body _ b (answer_status lib encoding _ (bytes b) 200 fresh refl)
        (reads.reads _ 200 b refl)
  readyz_result (err f) = readyz-IsFailure (as_namer f) f refl

module _ {M Formatter : Type 0} (mux : Muxer M) (router : IsRouter mux) (lib : Encoding Formatter)
    (encoding : IsEncoding lib) (decoder : Decoder) (reads : ReadsText lib decoder)
    (errhandler : ErrorHandler) (settled : IsSettled errhandler) (s : Service) (m : M) where
  abbrev server : Server
  server = new_server (new_endpoints s) lib errhandler none

  -- A client of the generated code gets from a server of the generated code what the methods of the
  -- service return: the bytes of a success; of an error the status 500, unless it is the unavailability
  -- that `Readyz` can tell, which the client has as such or cannot decode. The body of the response may be
  -- restored or not.
  pub client-server :
      (scheme host : String) (restore_body : Bool) (new_request : Url → Option Error)
      → ((path : String)
          → new_request (record { scheme = scheme; host = host; path = path }) ≡ none)
      → let c =
          new_client scheme host
            (doer (mux.serve (mount mux server m)))
            decoder
            restore_body
            new_request in
        let client = new_service_client (livez c) (readyz c) in
        IsLivezAnswer (s.livez (call_context "livez" (call "/livez"))) (call_livez client)
        × IsReadyzAnswer (s.readyz (call_context "readyz" (call "/readyz"))) (call_readyz client)
  unfolding new_client new_service_client call_livez call_readyz
  client-server scheme host restore_body new_request valid =
      let c =
        new_client scheme host (doer (mux.serve (mount mux server m))) decoder restore_body
          new_request in
      (
        subst (IsLivezAnswer (s.livez (call_context "livez" (call "/livez"))))
            (sym (
              relayed (livez c)
              ∙ livez_sent c (mux.serve (mount mux server m)) (valid "/livez") refl
              ∙ ap (λ w. (decode_livez_response decoder restore_body (response_of w)).0)
                  (serve-livez mux router server m (call "/livez") fresh refl refl
                    ∙ livez_reply lib errhandler settled s _ _)))
            (livez_result lib encoding decoder reads restore_body _ _),
        subst (IsReadyzAnswer (s.readyz (call_context "readyz" (call "/readyz"))))
            (sym (
              relayed (readyz c)
              ∙ readyz_sent c (mux.serve (mount mux server m)) (valid "/readyz") refl
              ∙ ap (λ w. (decode_readyz_response decoder restore_body (response_of w)).0)
                  (serve-readyz mux router server m (call "/readyz") fresh refl refl
                    ∙ readyz_reply lib errhandler settled s _ _)))
            (readyz_result lib encoding decoder reads restore_body _ _),
      )
