-- ===== src/Sources/Committee.antt =====
-- internal/service/source_board_member.go
use mathlib.Core.List.{foldl}
use lfx_v2_persona_service.Prelude.{
  String, ◌<>◌, Bool, true, false, some, Option, List, [], ◌∷◌, if◌then◌else◌, Result, ok, ◌>>=◌,
  value_or,
}
use lfx_v2_persona_service.Runtime.{Runtime}
use lfx_v2_persona_service.Model.{
  PersonaRequest, Project, BoardMemberExtra, CommitteeMemberExtra, merge_projects,
}
use lfx_v2_persona_service.Model.Source
use lfx_v2_persona_service.Model.Wire.{encode_board_member_extra, encode_committee_member_extra}
use lfx_v2_persona_service.Query.{Resource, CommitteeMemberData}
use lfx_v2_persona_service.Query.Tables.{decode_committee_member, empty_committee_member}
use lfx_v2_persona_service.Query.Client.{QueryClient, SearchParams, search}
use lfx_v2_persona_service.Sources.Legs.{
  Leg, unless_empty, both_legs, add_if, merge_legs, has_username, convert, unless_no_uid,
}

abbrev pub board_tag : Bool → List String
board_tag board_only = if board_only then "committee_category:Board" ∷ [] else []

unfoldable pub email_params : PersonaRequest → Bool → SearchParams
email_params req board_only = record {
  kind = "committee_member";
  tags_all = ("email:" <> req.email) ∷ board_tag board_only;
  filters = [];
}

unfoldable pub username_params : PersonaRequest → Bool → SearchParams
username_params req board_only = record {
  kind = "committee_member";
  tags_all = board_tag board_only;
  filters = ("username:" <> req.username) ∷ [];
}

-- The slices of both branches in turn, each resource once.
unfoldable pub deduplicate_resources : List (List Resource) → List Resource
unfolding add_if
deduplicate_resources slices = (foldl (foldl (add_if (λ _. true))) ([], []) slices).1

unfoldable pub board_member_extra : Resource → CommitteeMemberData → BoardMemberExtra
board_member_extra r m = record {
  committee_uid = m.committee_uid;
  committee_name = m.committee_name;
  committee_member_uid = r.id;
  role = m.role.name;
  voting_status = m.voting.status;
  organization = record {
    id = m.organization.id;
    name = m.organization.name;
    website = m.organization.website;
  };
}

unfoldable pub board_project : Resource → CommitteeMemberData → Option Project
unfolding board_member_extra encode_board_member_extra
board_project r m = unless_no_uid m.project_uid (record {
  project_uid = m.project_uid;
  project_slug = m.project_slug;
  detections =
      record {
        source = Source.board_member;
        extra = some (encode_board_member_extra (board_member_extra r m));
      }
      ∷ [];
})

unfoldable pub committee_member_extra : Resource → CommitteeMemberData → CommitteeMemberExtra
committee_member_extra r m = record {
  committee_uid = m.committee_uid;
  committee_name = m.committee_name;
  committee_member_uid = r.id;
  role = m.role.name;
}

unfoldable pub committee_project : Resource → CommitteeMemberData → Option Project
unfolding committee_member_extra encode_committee_member_extra
committee_project r m = unless_no_uid m.project_uid (record {
  project_uid = m.project_uid;
  project_slug = m.project_slug;
  detections =
      record {
        source = Source.committee_member;
        extra = some (encode_committee_member_extra (committee_member_extra r m));
      }
      ∷ [];
})

module _ (rt : Runtime) where
  unfoldable pub board_member_detections : List Resource → List Project
  unfolding convert board_project
  board_member_detections =
      convert (decode_committee_member rt) empty_committee_member board_project

  unfoldable pub committee_member_detections : List Resource → List Project
  unfolding convert committee_project
  committee_member_detections =
      convert (decode_committee_member rt) empty_committee_member committee_project

  -- The post-filter of the username leg.
  unfoldable pub is_member : PersonaRequest → Resource → Bool
  unfolding has_username
  is_member req =
      has_username rt (decode_committee_member rt) empty_committee_member (λ m. m.username)
        req.username

  -- What `queryCommitteeMembers` makes of its two legs.
  unfoldable pub members_from_legs : PersonaRequest → Leg → Leg → Result (List Resource)
  unfolding both_legs merge_legs is_member
  members_from_legs req email username = do
    (members, named) ← both_legs email username
    ok (merge_legs (is_member req) members named)

  unfoldable pub query_committee_members :
      QueryClient → PersonaRequest → Bool → Result (List Resource)
  unfolding members_from_legs search email_params username_params
  query_committee_members client req board_only =
      members_from_legs req (search rt client (email_params req board_only))
        (unless_empty req.username (search rt client (username_params req board_only)))

  -- What the source makes of the Board-only and the all-committee query; a failed one counts as empty.
  unfoldable pub from_branches : Result (List Resource) → Result (List Resource) → List Project
  unfolding board_member_detections committee_member_detections deduplicate_resources merge_projects
  from_branches board all =
      let members = deduplicate_resources (value_or [] board ∷ value_or [] all ∷ []) in
      elim members [
        | [] ↦ []
        | r ∷ rs ↦
            merge_projects (board_member_detections (value_or [] board))
              (committee_member_detections (r ∷ rs))
      ]

  unfoldable pub source_board_member_and_committee :
      QueryClient → PersonaRequest → Result (List Project)
  unfolding from_branches query_committee_members
  source_board_member_and_committee client req = ok (
      from_branches (query_committee_members client req true)
        (query_committee_members client req false))
