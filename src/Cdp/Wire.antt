-- ===== src/Cdp/Wire.antt =====
-- The JSON forms of internal/infrastructure/cdp/models.go, by the tags of its fields.
pub mod RoundTrip
use lfx_v2_persona_service.Prelude.{
  String, ◌==◌, if◌then◌else◌, Option, none, some, Slice, List, [], ◌∷◌, ◌++◌, false,
}
use lfx_v2_persona_service.Json.{pos, Json, null, bool, int, str}
use lfx_v2_persona_service.Json.Decode.{
  Table, Decoder, on, decode_string, decode_bool, decode_int, decode_optional, decode_slice,
  decode_struct,
}
use lfx_v2_persona_service.Json.Encode.{object, encode_optional, encode_slice}
use lfx_v2_persona_service.Runtime.{Runtime}
use lfx_v2_persona_service.Cdp.{
  ResolveRequest, ResolveResponse, ProjectAffiliationRole, ProjectAffiliationEntry,
  ProjectAffiliation, ProjectAffiliationsResponse,
}

-- `omitempty`
abbrev omit_empty : String → String → List (String × Json)
omit_empty key s = if s == "" then [] else (key, str s) ∷ []

abbrev omit_none : String → Slice String → List (String × Json)
omit_none key none = []
omit_none key (some []) = []
omit_none key (some (s ∷ l)) = (key, encode_slice str (some (s ∷ l))) ∷ []

-- The body of the resolve request.
unfoldable pub encode_resolve_request : ResolveRequest → Json
unfolding encode_slice
encode_resolve_request r =
    object ((("lfids", encode_slice str r.lfids) ∷ []) ++ omit_none "emails" r.emails)

abbrev pub empty_resolve_response : ResolveResponse
empty_resolve_response = record { member_id = "" }

resolve_response_fields : Table ResolveResponse
resolve_response_fields =
    ("memberId", on (λ r. r.member_id) (λ r x. record r { member_id = x }) decode_string) ∷ []

unfoldable pub decode_resolve_response : Runtime → Decoder ResolveResponse
unfolding resolve_response_fields decode_struct decode_string
decode_resolve_response rt = decode_struct rt resolve_response_fields

abbrev pub empty_role : ProjectAffiliationRole
empty_role = record {
  id = "";
  role = "";
  start_date = "";
  end_date = none;
  repo_url = "";
  repo_file_url = "";
}

role_fields : Table ProjectAffiliationRole
role_fields =
    ("id", on (λ r. r.id) (λ r x. record r { id = x }) decode_string)
    ∷ ("role", on (λ r. r.role) (λ r x. record r { role = x }) decode_string)
    ∷ ("startDate", on (λ r. r.start_date) (λ r x. record r { start_date = x }) decode_string)
    ∷ ("endDate", on (λ r. r.end_date) (λ r x. record r { end_date = x }) decode_optional)
    ∷ ("repoUrl", on (λ r. r.repo_url) (λ r x. record r { repo_url = x }) decode_string)
    ∷ (
      "repoFileUrl",
      on (λ r. r.repo_file_url) (λ r x. record r { repo_file_url = x }) decode_string,
    )
    ∷ []

unfoldable pub decode_role : Runtime → Decoder ProjectAffiliationRole
unfolding role_fields decode_struct decode_optional decode_string
decode_role rt = decode_struct rt role_fields

unfoldable pub encode_role : ProjectAffiliationRole → Json
encode_role a = object (
    ("id", str a.id)
    ∷ ("role", str a.role)
    ∷ ("startDate", str a.start_date)
    ∷ ("endDate", encode_optional a.end_date)
    ∷ ("repoUrl", str a.repo_url)
    ∷ ("repoFileUrl", str a.repo_file_url)
    ∷ [])

abbrev pub empty_entry : ProjectAffiliationEntry
empty_entry = record {
  id = "";
  organization_logo = "";
  organization_id = "";
  organization_name = "";
  verified = false;
  verified_by = "";
  source = "";
  start_date = "";
  end_date = none;
  kind = "";
}

entry_fields : Table ProjectAffiliationEntry
entry_fields =
    ("id", on (λ r. r.id) (λ r x. record r { id = x }) decode_string)
    ∷ (
      "organizationLogo",
      on (λ r. r.organization_logo) (λ r x. record r { organization_logo = x }) decode_string,
    )
    ∷ (
      "organizationId",
      on (λ r. r.organization_id) (λ r x. record r { organization_id = x }) decode_string,
    )
    ∷ (
      "organizationName",
      on (λ r. r.organization_name) (λ r x. record r { organization_name = x }) decode_string,
    )
    ∷ ("verified", on (λ r. r.verified) (λ r x. record r { verified = x }) decode_bool)
    ∷ ("verifiedBy", on (λ r. r.verified_by) (λ r x. record r { verified_by = x }) decode_string)
    ∷ ("source", on (λ r. r.source) (λ r x. record r { source = x }) decode_string)
    ∷ ("startDate", on (λ r. r.start_date) (λ r x. record r { start_date = x }) decode_string)
    ∷ ("endDate", on (λ r. r.end_date) (λ r x. record r { end_date = x }) decode_optional)
    ∷ ("type", on (λ r. r.kind) (λ r x. record r { kind = x }) decode_string)
    ∷ []

unfoldable pub decode_entry : Runtime → Decoder ProjectAffiliationEntry
unfolding entry_fields decode_struct decode_bool decode_optional decode_string
decode_entry rt = decode_struct rt entry_fields

unfoldable pub encode_entry : ProjectAffiliationEntry → Json
encode_entry a = object (
    omit_empty "id" a.id
    ++ (("organizationLogo", str a.organization_logo)
        ∷ ("organizationId", str a.organization_id)
        ∷ ("organizationName", str a.organization_name)
        ∷ ("verified", bool a.verified)
        ∷ ("verifiedBy", str a.verified_by)
        ∷ ("source", str a.source)
        ∷ ("startDate", str a.start_date)
        ∷ ("endDate", encode_optional a.end_date)
        ∷ ("type", str a.kind)
        ∷ []))

abbrev pub empty_affiliation : ProjectAffiliation
empty_affiliation = record {
  id = "";
  project_slug = "";
  project_logo = "";
  project_name = "";
  contribution_count = pos 0;
  roles = none;
  affiliations = none;
}

affiliation_fields : Runtime → Table ProjectAffiliation
affiliation_fields rt =
    ("id", on (λ r. r.id) (λ r x. record r { id = x }) decode_string)
    ∷ ("projectSlug", on (λ r. r.project_slug) (λ r x. record r { project_slug = x }) decode_string)
    ∷ ("projectLogo", on (λ r. r.project_logo) (λ r x. record r { project_logo = x }) decode_string)
    ∷ ("projectName", on (λ r. r.project_name) (λ r x. record r { project_name = x }) decode_string)
    ∷ (
      "contributionCount",
      on (λ r. r.contribution_count) (λ r x. record r { contribution_count = x }) decode_int,
    )
    ∷ (
      "roles",
      on (λ r. r.roles) (λ r x. record r { roles = x }) (decode_slice empty_role (decode_role rt)),
    )
    ∷ (
      "affiliations",
      on (λ r. r.affiliations) (λ r x. record r { affiliations = x })
          (decode_slice empty_entry (decode_entry rt)),
    )
    ∷ []

unfoldable pub decode_affiliation : Runtime → Decoder ProjectAffiliation
unfolding affiliation_fields decode_struct decode_entry decode_int decode_role decode_slice
    decode_string
decode_affiliation rt = decode_struct rt (affiliation_fields rt)

unfoldable pub encode_affiliation : ProjectAffiliation → Json
unfolding encode_entry encode_role encode_slice
encode_affiliation a = object (
    ("id", str a.id)
    ∷ ("projectSlug", str a.project_slug)
    ∷ ("projectLogo", str a.project_logo)
    ∷ ("projectName", str a.project_name)
    ∷ ("contributionCount", int a.contribution_count)
    ∷ ("roles", encode_slice encode_role a.roles)
    ∷ ("affiliations", encode_slice encode_entry a.affiliations)
    ∷ [])

abbrev pub empty_affiliations_response : ProjectAffiliationsResponse
empty_affiliations_response = record { project_affiliations = none }

affiliations_response_fields : Runtime → Table ProjectAffiliationsResponse
affiliations_response_fields rt =
    (
      "projectAffiliations",
      on (λ r. r.project_affiliations) (λ r x. record r { project_affiliations = x })
          (decode_slice empty_affiliation (decode_affiliation rt)),
    )
    ∷ []

unfoldable pub decode_affiliations_response : Runtime → Decoder ProjectAffiliationsResponse
unfolding affiliations_response_fields decode_struct decode_affiliation decode_slice
decode_affiliations_response rt = decode_struct rt (affiliations_response_fields rt)
