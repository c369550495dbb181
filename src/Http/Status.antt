-- ===== src/Http/Status.antt =====
-- The statuses that the encoders of gen/http/persona_service/server send.
use mathlib.Core.Option
use mathlib.Core.Option.{some-ne-none}
use lfx_v2_persona_service.Prelude.{ℕ, none, some, ◌≡◌, refl, ap, sym, ◌∙◌, Error}
use lfx_v2_persona_service.Http.{
  ServiceUnavailable, goa_error_name, set_header, unavailable_body, Context, Writer, write_header,
  Encoding, Body,
}
use lfx_v2_persona_service.Http.Contracts.{status_of, IsEncoding}
use lfx_v2_persona_service.Http.Server.{as_namer, encode_readyz_error, encode_unavailable}

write_header-sent :
    (code : ℕ) (w : Writer) → w.sent ≡ none → (write_header code w).sent ≡ some (code, w.header)
unfolding write_header
write_header-sent code w h = rw h refl

module _ {Formatter : Type 0} (lib : Encoding Formatter) where
  -- An error without a name for goa is left to the encoder of errors.
  pub nameless_error :
      (ctx : Context) (w : Writer) (e : Error)
      → as_namer e ≡ none
      → encode_readyz_error lib none ctx w e ≡ lib.error_encoder none ctx e w
  unfolding encode_readyz_error
  nameless_error ctx w e n = rw (n, encode_readyz_error) refl

  -- Any other is told as an unavailable service.
  pub named_error :
      (ctx : Context) (w : Writer) (e : Error) (n : ServiceUnavailable)
      → as_namer e ≡ some n
      → encode_readyz_error lib none ctx w e ≡ encode_unavailable lib ctx w n
  unfolding encode_readyz_error goa_error_name
  named_error ctx w e n h = rw (h, encode_readyz_error) refl

  module _ (encoding : IsEncoding lib) where
    sent_status :
        (ctx : Context) (b : Body) (code : ℕ) (w : Writer)
        → w.sent ≡ none
        → status_of (lib.encode ctx b (write_header code w)).1 ≡ some code
    sent_status ctx b code w h =
        let sent = write_header-sent code w h in
        ap (Option.map (λ s. s.0))
          (encoding.keeps ctx b (write_header code w) (λ e. some-ne-none _ (sym sent ∙ e)) ∙ sent)

    -- A body that is encoded after its status was written goes out with that status.
    pub answer_status :
        (ctx : Context) (b : Body) (code : ℕ) (w : Writer)
        → w.sent ≡ none
        → status_of (lib.encode ctx b (write_header code (lib.new_encoder ctx w))).1 ≡ some code
    answer_status ctx b code w h = sent_status ctx b code _ (encoding.quiet ctx w ∙ h)

    pub unavailable_status :
        (ctx : Context) (w : Writer) (n : ServiceUnavailable)
        → w.sent ≡ none
        → status_of (encode_unavailable lib ctx w n).1 ≡ some 503
    unfolding encode_unavailable set_header
    unavailable_status ctx w n h = sent_status _ (unavailable_body n) 503 _ (encoding.quiet _ w ∙ h)
