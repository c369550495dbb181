-- ===== src/Model/Wire.antt =====
-- The JSON forms of internal/domain/model/persona.go, by the tags of its fields.
use lfx_v2_persona_service.Prelude.{String, Option, none, some, List, [], ◌∷◌}
use lfx_v2_persona_service.Json.{Json, null, int, str}
use lfx_v2_persona_service.Json.Decode.{Table, Decoder, on, decode_string, decode_struct}
use lfx_v2_persona_service.Json.Encode.{object, encode_slice, encode_optional}
use lfx_v2_persona_service.Runtime.{Runtime}
use lfx_v2_persona_service.Model.{
  PersonaRequest, PersonaResponse, ErrorDetail, Detection, Project, BoardMemberOrganization,
  BoardMemberExtra, CommitteeMemberExtra, CdpRolesExtraRole, CdpRolesExtra,
}

abbrev pub empty_request : PersonaRequest
empty_request = record { username = ""; email = "" }

persona_request_fields : Table PersonaRequest
persona_request_fields =
    ("username", on (λ r. r.username) (λ r s. record r { username = s }) decode_string)
    ∷ ("email", on (λ r. r.email) (λ r s. record r { email = s }) decode_string)
    ∷ []

unfoldable pub decode_persona_request : Runtime → Decoder PersonaRequest
unfolding persona_request_fields decode_struct decode_string
decode_persona_request rt = decode_struct rt persona_request_fields

abbrev pub optional_field : String → Option Json → List (String × Json)
optional_field key none = []
optional_field key (some v) = (key, v) ∷ []

unfoldable pub encode_detection : Detection → Json
encode_detection d = object (("source", str d.source) ∷ optional_field "extra" d.extra)

unfoldable pub encode_project : Project → Json
encode_project p = object (
    ("project_uid", str p.project_uid)
    ∷ ("project_slug", str p.project_slug)
    ∷ ("detections", encode_slice encode_detection (some p.detections))
    ∷ [])

unfoldable pub encode_error : Option ErrorDetail → Json
encode_error none = null
encode_error (some e) = object (("code", str e.code) ∷ ("message", str e.message) ∷ [])

-- `json.Marshal(resp)`
unfoldable pub encode_response : PersonaResponse → Json
unfolding encode_detection encode_project encode_error encode_slice
encode_response r =
    object
      (("projects", encode_slice encode_project r.projects) ∷ ("error", encode_error r.error) ∷ [])

encode_organization : BoardMemberOrganization → Json
encode_organization o =
    object (("id", str o.id) ∷ ("name", str o.name) ∷ ("website", str o.website) ∷ [])

unfoldable pub encode_board_member_extra : BoardMemberExtra → Json
unfolding encode_organization
encode_board_member_extra e = object (
    ("committee_uid", str e.committee_uid)
    ∷ ("committee_name", str e.committee_name)
    ∷ ("committee_member_uid", str e.committee_member_uid)
    ∷ ("role", str e.role)
    ∷ ("voting_status", str e.voting_status)
    ∷ ("organization", encode_organization e.organization)
    ∷ [])

unfoldable pub encode_committee_member_extra : CommitteeMemberExtra → Json
encode_committee_member_extra e = object (
    ("committee_uid", str e.committee_uid)
    ∷ ("committee_name", str e.committee_name)
    ∷ ("committee_member_uid", str e.committee_member_uid)
    ∷ ("role", str e.role)
    ∷ [])

unfoldable pub encode_extra_role : CdpRolesExtraRole → Json
encode_extra_role r = object (
    ("id", str r.id)
    ∷ ("role", str r.role)
    ∷ ("startDate", str r.start_date)
    ∷ ("endDate", encode_optional r.end_date)
    ∷ ("repoUrl", str r.repo_url)
    ∷ ("repoFileUrl", str r.repo_file_url)
    ∷ [])

unfoldable pub encode_cdp_roles_extra : CdpRolesExtra → Json
unfolding encode_extra_role encode_slice
encode_cdp_roles_extra e = object (
    ("contributionCount", int e.contribution_count)
    ∷ ("roles", encode_slice encode_extra_role e.roles)
    ∷ [])
