-- ===== src/Http/Design/Conformance.antt =====
-- The server of gen/http/persona_service/server does what cmd/server/design/persona.go declares.
use mathlib.Core.Path.{subst}
use mathlib.Core.List.{Memᴰ}
use lfx_v2_persona_service.Prelude.{
  ℕ, String, ◌==◌, Option, none, some, List, [], if◌then◌else◌, lookup, ◌≡◌, refl, ap, sym, ◌∙◌,
  Error, Result, ok, err,
}
use lfx_v2_persona_service.Http.{
  Context, Service, Endpoint, new_endpoints, ServiceUnavailable, goa_error_name, bytes, Writer,
  Request, Encoding, Muxer,
}
use lfx_v2_persona_service.Http.Contracts.{status_of, IsRouter, IsEncoding}
use lfx_v2_persona_service.Http.Server.{
  as_namer, ErrorHandler, call_context, new_server, mount, encode_livez_response,
  encode_readyz_response, encode_readyz_error,
}
use lfx_v2_persona_service.Http.Status.{
  answer_status, nameless_error, named_error, unavailable_status,
}
use lfx_v2_persona_service.Http.Routing.{serve-livez, serve-readyz}
use lfx_v2_persona_service.Http.Replies.{
  IsSettled, livez_reply_to, readyz_reply_to, livez_reply, readyz_reply,
}
use lfx_v2_persona_service.Http.Design.{Method, livez_method, readyz_method, persona_service}

-- The status of an error: what is declared for its name, if it has one, and else that of a fault.
abbrev pub error_status : List (String × ℕ) → Option ServiceUnavailable → ℕ
error_status errors none = 500
error_status errors (some n) = elim (lookup (goa_error_name n) errors) [
  | none ↦ 500
  | some code ↦ code
]

abbrev pub designed_status : Method → Result String → ℕ
designed_status d (ok b) = d.ok_status
designed_status d (err e) = error_status d.errors (as_namer e)

-- The method of the service that has a name.
abbrev pub method_named : String → Service → Endpoint
method_named name s = if name == "livez" then s.livez else s.readyz

undeclared : (n : Option ServiceUnavailable) → error_status [] n ≡ 500
undeclared none = refl
undeclared (some n) = refl

module _ {Formatter : Type 0} (lib : Encoding Formatter) (encoding : IsEncoding lib) (ctx : Context)
    (w : Writer) (unsent : w.sent ≡ none) where
  livez_status :
      (a : Result String)
      → status_of (livez_reply_to lib ctx w a).1 ≡ some (designed_status livez_method a)
  unfolding encode_livez_response
  livez_status (ok b) = answer_status lib encoding _ (bytes b) 200 w unsent
  livez_status (err f) = encoding.fault ctx f w unsent ∙ ap some (sym (undeclared (as_namer f)))

  readyz_error_status :
      (f : Error) (n : Option ServiceUnavailable)
      → as_namer f ≡ n
      → status_of (encode_readyz_error lib none ctx w f).1
        ≡ some (error_status readyz_method.errors n)
  unfolding goa_error_name
  readyz_error_status f none e =
      ap (λ a. status_of a.1) (nameless_error lib ctx w f e) ∙ encoding.fault ctx f w unsent
  readyz_error_status f (some n) e =
      ap (λ a. status_of a.1) (named_error lib ctx w f n e)
      ∙ unavailable_status lib encoding ctx w n unsent

  readyz_status :
      (a : Result String)
      → status_of (readyz_reply_to lib ctx w a).1 ≡ some (designed_status readyz_method a)
  unfolding encode_readyz_response
  readyz_status (ok b) = answer_status lib encoding _ (bytes b) 200 w unsent
  readyz_status (err f) = readyz_error_status f (as_namer f) refl

module _ {M Formatter : Type 0} (mux : Muxer M) (router : IsRouter mux) (lib : Encoding Formatter)
    (encoding : IsEncoding lib) (errhandler : ErrorHandler) (settled : IsSettled errhandler)
    (s : Service) (m : M) where
  abbrev Implements : Method → Type 0
  Implements d =
      (r : Request) (w : Writer)
      → r.method ≡ d.verb
      → r.path ≡ d.path
      → w.sent ≡ none
      → let server = new_server (new_endpoints s) lib errhandler none in
        status_of (mux.serve (mount mux server m) r w)
        ≡ some (designed_status d (method_named d.name s (call_context d.name r)))

  livez-Implements : Implements livez_method
  livez-Implements r w get path unsent =
      ap status_of
        (serve-livez mux router _ m r w get path ∙ livez_reply lib errhandler settled s r w)
      ∙ livez_status lib encoding _ w unsent _

  readyz-Implements : Implements readyz_method
  readyz-Implements r w get path unsent =
      ap status_of
        (serve-readyz mux router _ m r w get path ∙ readyz_reply lib errhandler settled s r w)
      ∙ readyz_status lib encoding _ w unsent _

  -- For every method of the design, a request of its verb at its path is answered with the status that
  -- the design declares for what the method of the service returns: that of a result, that of an error
  -- by its name for goa, and 500 for any error that is not declared.
  pub serve-design :
      (d : Method)
      → Memᴰ d persona_service.methods
      → (r : Request) (w : Writer) → r.method ≡ d.verb
      → r.path ≡ d.path
      → w.sent ≡ none
      → let server = new_server (new_endpoints s) lib errhandler none in
        status_of (mux.serve (mount mux server m) r w)
        ≡ some (designed_status d (method_named d.name s (call_context d.name r)))
  serve-design d (Memᴰ.head e) = subst Implements (sym e) livez-Implements
  serve-design d (Memᴰ.tail (Memᴰ.head e)) = subst Implements (sym e) readyz-Implements
  serve-design d (Memᴰ.tail (Memᴰ.tail h)) = elim h [ ]
