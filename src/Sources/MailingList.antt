-- ===== src/Sources/MailingList.antt =====
-- internal/service/source_mailing_list.go
use lfx_v2_persona_service.Prelude.{◌<>◌, none, Bool, Option, List, [], ◌∷◌, Result, ok, ◌>>=◌}
use lfx_v2_persona_service.Runtime.{Runtime}
use lfx_v2_persona_service.Model.{PersonaRequest, Project}
use lfx_v2_persona_service.Model.Source
use lfx_v2_persona_service.Query.{Resource, GroupsIoMemberData}
use lfx_v2_persona_service.Query.Tables.{decode_groups_io_member, empty_groups_io_member}
use lfx_v2_persona_service.Query.Client.{QueryClient, SearchParams, search}
use lfx_v2_persona_service.Sources.Legs.{
  Leg, unless_empty, both_legs, merge_legs, has_username, convert, unless_no_uid,
}

unfoldable pub email_params : PersonaRequest → SearchParams
email_params req = record {
  kind = "groupsio_member";
  tags_all = ("email:" <> req.email) ∷ [];
  filters = [];
}

unfoldable pub username_params : PersonaRequest → SearchParams
username_params req = record {
  kind = "groupsio_member";
  tags_all = [];
  filters = ("username:" <> req.username) ∷ [];
}

unfoldable pub mailing_project : Resource → GroupsIoMemberData → Option Project
mailing_project r m = unless_no_uid m.project_uid (record {
  project_uid = m.project_uid;
  project_slug = m.project_slug;
  detections = record { source = Source.mailing_list; extra = none } ∷ [];
})

module _ (rt : Runtime) where
  -- The post-filter of the username leg.
  unfoldable pub is_member : PersonaRequest → Resource → Bool
  unfolding has_username
  is_member req =
      has_username rt (decode_groups_io_member rt) empty_groups_io_member (λ m. m.username)
        req.username

  unfoldable pub mailing_projects : List Resource → List Project
  unfolding convert mailing_project
  mailing_projects = convert (decode_groups_io_member rt) empty_groups_io_member mailing_project

  -- What the source makes of its two legs.
  unfoldable pub from_legs : PersonaRequest → Leg → Leg → Result (List Project)
  unfolding mailing_projects both_legs merge_legs is_member
  from_legs req email username = do
    (members, named) ← both_legs email username
    ok (mailing_projects (merge_legs (is_member req) members named))

  unfoldable pub source_mailing_list : QueryClient → PersonaRequest → Result (List Project)
  unfolding from_legs search email_params username_params
  source_mailing_list client req =
      from_legs req (search rt client (email_params req))
        (unless_empty req.username (search rt client (username_params req)))
