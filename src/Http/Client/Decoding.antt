-- ===== src/Http/Client/Decoding.antt =====
-- How gen/http/persona_service/client/encode_decode.go reads the responses of each status.
use lfx_v2_persona_service.Prelude.{
  ℕ, String, Bool, none, List, ◌≡◌, refl, Bool-cases, ◌⊎◌, inl, inr, Error, Result, ok, err,
}
use lfx_v2_persona_service.Http.{ServiceUnavailable}
use lfx_v2_persona_service.Http.Client.{
  Decoder, Response, open_, Outcome, answered, failed, invalid_response, decoding_error,
  service_unavailable, decode_livez_response, decode_readyz_response, decoded, decoded_unavailable,
}

-- A response whose body can be read.
abbrev pub readable : ℕ → List (String × String) → String → Response
readable code header text = record { status_code = code; header = header; body = open_ text none }

-- The client took the response for one of no status that it knows.
abbrev pub IsInvalid : String → ℕ → Outcome String → Type 0
IsInvalid method code o =
    (text : String) × (o ≡ failed (invalid_response "persona-service" method code text))

-- The client took the response for an unavailable service, or could not read its text.
abbrev pub IsUnavailable : Outcome String → Type 0
IsUnavailable o =
    ((e : ServiceUnavailable) × (o ≡ failed (service_unavailable e)))
    ⊎ ((f : Error) × (o ≡ failed (decoding_error "persona-service" "readyz" f)))

decoded_unavailable-IsUnavailable : (r : Result String) → IsUnavailable (decoded_unavailable r)
unfolding decoded_unavailable
decoded_unavailable-IsUnavailable (ok t) = inl (_, refl)
decoded_unavailable-IsUnavailable (err f) = inr (f, refl)

module _ (decoder : Decoder) (restore_body : Bool) (code : ℕ) (header : List (String × String))
    (text : String) where
  abbrev response : Response
  response = readable code header text

  pub livez-success :
      (b : String)
      → code ≡ 200
      → decoder.decode_bytes response ≡ ok b
      → (decode_livez_response decoder restore_body response).0 ≡ answered b
  unfolding decode_livez_response decoded
  livez-success b e h = elim (Bool-cases restore_body) [
    | inl f ↦ rw (f, h, e) refl
    | inr f ↦ rw (f, h, e) refl
  ]

  pub readyz-success :
      (b : String)
      → code ≡ 200
      → decoder.decode_bytes response ≡ ok b
      → (decode_readyz_response decoder restore_body response).0 ≡ answered b
  unfolding decode_readyz_response decoded
  readyz-success b e h = elim (Bool-cases restore_body) [
    | inl f ↦ rw (f, h, e) refl
    | inr f ↦ rw (f, h, e) refl
  ]

  pub livez-fault :
      code ≡ 500 → IsInvalid "livez" 500 (decode_livez_response decoder restore_body response).0
  unfolding decode_livez_response
  livez-fault e = elim (Bool-cases restore_body) [
    | inl f ↦ rw (f, e) (text, refl)
    | inr f ↦ rw (f, e) (text, refl)
  ]

  pub readyz-fault :
      code ≡ 500 → IsInvalid "readyz" 500 (decode_readyz_response decoder restore_body response).0
  unfolding decode_readyz_response
  readyz-fault e = elim (Bool-cases restore_body) [
    | inl f ↦ rw (f, e) (text, refl)
    | inr f ↦ rw (f, e) (text, refl)
  ]

  pub readyz-IsUnavailable :
      code ≡ 503 → IsUnavailable (decode_readyz_response decoder restore_body response).0
  unfolding decode_readyz_response
  readyz-IsUnavailable e = elim (Bool-cases restore_body) [
    | inl f ↦ rw (f, e) (decoded_unavailable-IsUnavailable _)
    | inr f ↦ rw (f, e) (decoded_unavailable-IsUnavailable _)
  ]
