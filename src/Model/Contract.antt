-- ===== src/Model/Contract.antt =====
-- The shape of the response that ARCHITECTURE.md gives, with the tokens of the detections and what is
-- extra to each.
use lfx_v2_persona_service.Prelude.{
  String, true, ◌||◌, Option, none, some, List, [], ◌∷◌, ◌≡◌, refl, All,
}
use lfx_v2_persona_service.Json.Schema.{
  Schema, text_schema, name_schema, literal, number_schema, nullable, list_of, some_of, struct,
  all_items-encode_items,
}
use lfx_v2_persona_service.Json.Encode.{encode_slice}
use lfx_v2_persona_service.Model.{
  Detection, BoardMemberExtra, CommitteeMemberExtra, CdpRolesExtra, CdpRolesExtraRole,
}
use lfx_v2_persona_service.Model.Source
use lfx_v2_persona_service.Model.Wire.{
  encode_detection, encode_extra_role, encode_board_member_extra, encode_committee_member_extra,
  encode_cdp_roles_extra,
}

abbrev pub board_member_extra_schema : Schema
board_member_extra_schema = struct (
    ("committee_uid", text_schema)
    ∷ ("committee_name", text_schema)
    ∷ ("committee_member_uid", text_schema)
    ∷ ("role", text_schema)
    ∷ ("voting_status", text_schema)
    ∷ (
      "organization",
      struct (("id", text_schema) ∷ ("name", text_schema) ∷ ("website", text_schema) ∷ []),
    )
    ∷ [])

abbrev pub committee_member_extra_schema : Schema
committee_member_extra_schema = struct (
    ("committee_uid", text_schema)
    ∷ ("committee_name", text_schema)
    ∷ ("committee_member_uid", text_schema)
    ∷ ("role", text_schema)
    ∷ [])

abbrev pub role_schema : Schema
role_schema = struct (
    ("id", text_schema)
    ∷ ("role", text_schema)
    ∷ ("startDate", text_schema)
    ∷ ("endDate", nullable text_schema)
    ∷ ("repoUrl", text_schema)
    ∷ ("repoFileUrl", text_schema)
    ∷ [])

abbrev pub cdp_roles_extra_schema : Schema
cdp_roles_extra_schema =
    struct (("contributionCount", number_schema) ∷ ("roles", list_of role_schema) ∷ [])

-- A detection without or with what is extra to it.
abbrev bare : String → Schema
bare token = struct (("source", literal token) ∷ [])

abbrev with_extra : String → Schema → Schema
with_extra token extra = struct (("source", literal token) ∷ ("extra", extra) ∷ [])

abbrev pub detection_schema : Schema
detection_schema j =
    with_extra Source.board_member board_member_extra_schema j
    || (with_extra Source.committee_member committee_member_extra_schema j
        || (with_extra Source.cdp_roles cdp_roles_extra_schema j
            || (bare Source.executive_director j
                || (bare Source.writer j
                    || (bare Source.auditor j
                        || (bare Source.mailing_list j || bare Source.meeting_attendance j))))))

abbrev pub project_schema : Schema
project_schema = struct (
    ("project_uid", name_schema)
    ∷ ("project_slug", text_schema)
    ∷ ("detections", some_of detection_schema)
    ∷ [])

-- The error, `null` if there is none.
abbrev pub error_schema : Schema
error_schema = nullable (struct (("code", text_schema) ∷ ("message", text_schema) ∷ []))

abbrev pub response_schema : Schema
response_schema = struct (("projects", list_of project_schema) ∷ ("error", error_schema) ∷ [])

-- The detection has the form of the contract.
abbrev pub HasForm : Detection → Type 0
HasForm d = detection_schema (encode_detection d) ≡ true

pub board_member-HasForm :
    (e : BoardMemberExtra)
    → HasForm (record { source = Source.board_member; extra = some (encode_board_member_extra e) })
unfolding encode_detection encode_board_member_extra
board_member-HasForm e = refl

pub committee_member-HasForm :
    (e : CommitteeMemberExtra)
    → HasForm (record {
      source = Source.committee_member;
      extra = some (encode_committee_member_extra e);
    })
unfolding encode_detection encode_committee_member_extra
committee_member-HasForm e = refl

role_form :
    (o : Option String) (r : CdpRolesExtraRole)
    → r.end_date ≡ o
    → role_schema (encode_extra_role r) ≡ true
unfolding encode_extra_role
role_form none r e = rw e refl
role_form (some s) r e = rw e refl

abbrev IsRole : CdpRolesExtraRole → Type 0
IsRole r = role_schema (encode_extra_role r) ≡ true

roles-IsRole : (l : List CdpRolesExtraRole) → All IsRole l
roles-IsRole [] = tt
roles-IsRole (r ∷ l) = (role_form r.end_date r refl, roles-IsRole l)

pub cdp_roles-HasForm :
    (e : CdpRolesExtra) (l : List CdpRolesExtraRole)
    → e.roles ≡ some l
    → HasForm (record { source = Source.cdp_roles; extra = some (encode_cdp_roles_extra e) })
unfolding encode_detection encode_cdp_roles_extra encode_slice
cdp_roles-HasForm e l h =
    rw
      (h, all_items-encode_items IsRole role_schema encode_extra_role (λ r k. k) l (roles-IsRole l))
      refl
