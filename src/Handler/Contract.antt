-- ===== src/Handler/Contract.antt =====
-- Every response of `GetPersona` on the wire.
use mathlib.Core.Path.{subst}
use lfx_v2_persona_service.Prelude.{
  String, true, List, [], ◌∷◌, Option, none, some, Slice, elements, All, ◌≡◌, ◌≢◌, refl, sym, ◌∙◌,
  ==_of_ne,
}
use lfx_v2_persona_service.Json.{Bytes}
use lfx_v2_persona_service.Json.Encode.{encode_items, encode_slice}
use lfx_v2_persona_service.Json.Schema.{some_of, all_items-encode_items}
use lfx_v2_persona_service.Runtime.{Runtime}
use lfx_v2_persona_service.Model.{PersonaResponse, Project, Detection, ErrorDetail}
use lfx_v2_persona_service.Model.Contract.{
  detection_schema, project_schema, error_schema, response_schema,
}
use lfx_v2_persona_service.Model.Tokens.{IsFoundBy, IsToken}
use lfx_v2_persona_service.Model.Wire.{
  encode_detection, encode_project, encode_error, encode_response,
}
use lfx_v2_persona_service.Cdp.Cache.{KeyValue}
use lfx_v2_persona_service.Sources.Access.{Matches}
use lfx_v2_persona_service.Sources.CdpRoles.{Times}
use lfx_v2_persona_service.Handler.{PersonaHandler, rejected, sources, validate}
use lfx_v2_persona_service.Handler.Answers.{GetPersona}
use lfx_v2_persona_service.Handler.Collector.Replies.{reply_well_formed}
use lfx_v2_persona_service.Handler.Contents.{all_tokens}
use lfx_v2_persona_service.Handler.Contents.Replied.{reply-IsFoundBy}
use lfx_v2_persona_service.Handler.Validation.{Guaranteed, validate-Guaranteed}
use mathlib.Core.List.{Permᴰ}

module _ (tokens : List String) where
  detections_form :
      (ds : List Detection)
      → ds ≢ []
      → All (IsToken tokens) ds
      → some_of detection_schema (encode_slice encode_detection (some ds)) ≡ true
  unfolding encode_slice encode_items
  detections_form [] ne h = absurd (ne refl)
  detections_form (d ∷ ds) ne ((t, form), hs) =
      rw
        (
          form,
          all_items-encode_items (IsToken tokens) detection_schema encode_detection (λ e k. k.1) ds
              hs,
        )
        refl

  project_form : (p : Project) → IsFoundBy tokens p → project_schema (encode_project p) ≡ true
  unfolding encode_project
  project_form p h =
      rw
        (
          ==_of_ne p.project_uid "" h.has_uid,
          detections_form p.detections h.has_detection h.has_tokens,
        )
        refl

  error_form : (e : Option ErrorDetail) → error_schema (encode_error e) ≡ true
  unfolding encode_error
  error_form none = refl
  error_form (some e) = refl

  response_form :
      (o : Slice Project) (e : Option ErrorDetail)
      → o ≢ none
      → All (IsFoundBy tokens) (elements o)
      → response_schema (encode_response (record { projects = o; error = e })) ≡ true
  unfolding encode_response encode_slice
  response_form none e ne h = absurd (ne refl)
  response_form (some ps) e ne h =
      rw
        (
          all_items-encode_items (IsFoundBy tokens) project_schema encode_project project_form ps h,
          error_form e,
        )
        refl

some-ne : (ps : List Project) → ◌≢◌ {A = Slice Project} (some ps) none
some-ne ps e = cc

module _ (rt : Runtime) (S : KeyValue) (Bucket : Type 0) (order : Matches → Matches)
    (same : (ms : Matches) → Permᴰ (order ms) ms) (t : Times) (h : PersonaHandler rt S Bucket)
    (body : Bytes) where
  refused_form :
      (resp : PersonaResponse)
      → validate rt body ≡ rejected resp
      → response_schema (encode_response resp) ≡ true
  refused_form resp e =
      let (empty, code) = subst Guaranteed e (validate-Guaranteed rt body) in
      response_form all_tokens resp.projects resp.error (λ k. some-ne [] (sym empty ∙ k))
        (subst (λ o. All (IsFoundBy all_tokens) (elements o)) (sym empty) tt)

  -- Every response that a message can have is sent as a JSON object of the form of the contract: a list of
  -- projects, never null, each with a UID that is not empty, a slug and at least one detection, which has a
  -- token with just what is extra to it; and an error that is null or has a code and a message. The map of
  -- the writer and auditor source is visited in any order.
  pub GetPersona-response_schema :
      (resp : PersonaResponse)
      → GetPersona rt S Bucket order t h body resp
      → response_schema (encode_response resp) ≡ true
  GetPersona-response_schema resp (GetPersona.refused _ e) = refused_form resp e
  GetPersona-response_schema resp (GetPersona.collected req c _ e run replied) =
      response_form all_tokens resp.projects resp.error
        (reply_well_formed (sources rt S Bucket order t h req) c run resp replied).0
        (reply-IsFoundBy rt S Bucket order same t h req c run resp replied)
