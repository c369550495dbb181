-- ===== src/Handler/Validation.antt =====
-- What the validation of a message guarantees to the sources, and what it answers itself.
use mathlib.Core.Option
use lfx_v2_persona_service.Prelude.{
  String, true, Option, some, [], ◌==◌, ne_of_==, ◌≡◌, ◌≢◌, refl, ok, err, Result, inl, inr,
  Bool-cases, ◌⊎◌,
}
use lfx_v2_persona_service.Json.{Bytes}
use lfx_v2_persona_service.Json.Decode.{unmarshal}
use lfx_v2_persona_service.Runtime.{Runtime}
use lfx_v2_persona_service.Text.{trim_space}
use lfx_v2_persona_service.Text.Laws.{trim_space_idem}
use lfx_v2_persona_service.Username.{is_valid_query_username}
use lfx_v2_persona_service.Model.{PersonaRequest, PersonaResponse}
use lfx_v2_persona_service.Model.Wire.{decode_persona_request, empty_request}
use lfx_v2_persona_service.Handler.{
  Validated, rejected, accepted, normalize, check_request, after_decoding, validate,
}

-- The code of the error of a response.
abbrev pub error_code : PersonaResponse → Option String
error_code r = Option.map (λ e. e.code) r.error

abbrev pub Guaranteed : Validated → Type 0
Guaranteed (accepted req) =
    (req.email ≢ "")
    × (is_valid_query_username req.username ≡ true)
    × (trim_space req.username ≡ req.username)
Guaranteed (rejected resp) =
    (resp.projects ≡ some [])
    × ((error_code resp ≡ some "invalid_request") ⊎ (error_code resp ≡ some "validation_error"))

check_request-Guaranteed :
    (req : PersonaRequest) → trim_space req.username ≡ req.username → Guaranteed (check_request req)
unfolding check_request
check_request-Guaranteed req t = elim (Bool-cases (req.email == "")) [
  | inl e ↦ rw e (refl, inr refl)
  | inr e ↦ elim (Bool-cases (is_valid_query_username req.username)) [
    | inl v ↦ rw (e, v) (ne_of_== req.email "" e, v, t)
    | inr v ↦ rw (e, v) (refl, inr refl)
  ]
]

after_decoding-Guaranteed :
    (rt : Runtime) (r : Result PersonaRequest) → Guaranteed (after_decoding rt r)
unfolding after_decoding
after_decoding-Guaranteed rt (err e) = (refl, inl refl)
after_decoding-Guaranteed rt (ok req) =
    check_request-Guaranteed (normalize rt req) (trim_space_idem req.username)

-- A request that reaches the sources has an email and a trimmed, valid username; any other message is
-- answered with no projects and one of two error codes.
pub validate-Guaranteed : (rt : Runtime) (body : Bytes) → Guaranteed (validate rt body)
validate-Guaranteed rt body =
    unfold validate in
    after_decoding-Guaranteed rt (unmarshal rt (decode_persona_request rt) empty_request body)
