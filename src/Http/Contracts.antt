-- ===== src/Http/Contracts.antt =====
-- What the properties of the HTTP server and client rely on of goa's router and encoders.
use Prim.Native.Char.{code}
use mathlib.Core.Option
use lfx_v2_persona_service.Prelude.{
  ℕ, String, Bool, true, not, ◌&&◌, Option, none, some, same_num, ◌≡◌, ◌≢◌, Error,
}
use lfx_v2_persona_service.Http.{Context, Writer, Request, Handler, Encoding, Muxer, Body}

-- A pattern of a route with no parameter and no wildcard.
abbrev pub is_literal : String → Bool
is_literal String.[] = true
is_literal (String.◌∷◌ c s) =
    not (same_num (code c) b'{') && not (same_num (code c) b'*') && is_literal s

abbrev pub status_of : Writer → Option ℕ
status_of w = Option.map (λ s. s.0) w.sent

-- A route of a literal pattern serves the requests of its method at its path, and changes nothing for
-- other paths.
pub record IsRouter {M : Type 0} (mux : Muxer M) : Type 0 where
  pub matched :
      (verb pattern : String) (h : Handler) (m : M) (r : Request) (w : Writer)
      → is_literal pattern ≡ true
      → r.method ≡ verb
      → r.path ≡ pattern
      → mux.serve (mux.handle verb pattern h m) r w ≡ h r w
  pub passed :
      (verb pattern : String) (h : Handler) (m : M) (r : Request) (w : Writer)
      → is_literal pattern ≡ true
      → r.path ≢ pattern
      → mux.serve (mux.handle verb pattern h m) r w ≡ mux.serve m r w

-- Making an encoder sends nothing, encoding keeps the status that was sent, and an error that is none of
-- goa's own is a fault of the server.
pub record IsEncoding {Formatter : Type 0} (lib : Encoding Formatter) : Type 0 where
  pub quiet : (ctx : Context) (w : Writer) → (lib.new_encoder ctx w).sent ≡ w.sent
  pub keeps :
      (ctx : Context) (b : Body) (w : Writer) → w.sent ≢ none → (lib.encode ctx b w).1.sent ≡ w.sent
  pub fault :
      (ctx : Context) (e : Error) (w : Writer)
      → w.sent ≡ none
      → status_of (lib.error_encoder none ctx e w).1 ≡ some 500
