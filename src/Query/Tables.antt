-- ===== src/Query/Tables.antt =====
-- The decoders of the Query Service's resources, by the tags of their fields.
use lfx_v2_persona_service.Prelude.{false, none, [], ◌∷◌}
use lfx_v2_persona_service.Json.Decode.{
  Table, Decoder, on, decode_string, decode_bool, decode_message, decode_slice, decode_struct,
}
use lfx_v2_persona_service.Runtime.{Runtime}
use lfx_v2_persona_service.Query.{
  Resource, ResourceResponse, CommitteeMemberOrg, CommitteeMemberRole, CommitteeMemberVote,
  CommitteeMemberData, ProjectPerson, ProjectData, GroupsIoMemberData, MeetingParticipantData,
}

abbrev pub empty_resource : Resource
empty_resource = record { id = ""; kind = ""; slug = ""; fields = none; tags = none }

resource_fields : Table Resource
resource_fields =
    ("id", on (λ r. r.id) (λ r x. record r { id = x }) decode_string)
    ∷ ("type", on (λ r. r.kind) (λ r x. record r { kind = x }) decode_string)
    ∷ ("slug", on (λ r. r.slug) (λ r x. record r { slug = x }) decode_string)
    ∷ ("data", on (λ r. r.fields) (λ r x. record r { fields = x }) decode_message)
    ∷ ("tags", on (λ r. r.tags) (λ r x. record r { tags = x }) (decode_slice "" decode_string))
    ∷ []

decode_resource : Runtime → Decoder Resource
unfolding resource_fields decode_struct decode_message decode_slice decode_string
decode_resource rt = decode_struct rt resource_fields

abbrev pub empty_resource_response : ResourceResponse
empty_resource_response = record { resources = none }

resource_response_fields : Runtime → Table ResourceResponse
resource_response_fields rt =
    (
      "resources",
      on (λ r. r.resources) (λ r x. record r { resources = x })
          (decode_slice empty_resource (decode_resource rt)),
    )
    ∷ []

unfoldable pub decode_resource_response : Runtime → Decoder ResourceResponse
unfolding resource_response_fields decode_struct decode_resource decode_slice
decode_resource_response rt = decode_struct rt (resource_response_fields rt)

abbrev pub empty_org : CommitteeMemberOrg
empty_org = record { id = ""; name = ""; website = "" }

org_fields : Table CommitteeMemberOrg
org_fields =
    ("id", on (λ r. r.id) (λ r x. record r { id = x }) decode_string)
    ∷ ("name", on (λ r. r.name) (λ r x. record r { name = x }) decode_string)
    ∷ ("website", on (λ r. r.website) (λ r x. record r { website = x }) decode_string)
    ∷ []

decode_org : Runtime → Decoder CommitteeMemberOrg
unfolding org_fields decode_struct decode_string
decode_org rt = decode_struct rt org_fields

abbrev pub empty_role : CommitteeMemberRole
empty_role = record { name = "" }

role_fields : Table CommitteeMemberRole
role_fields = ("name", on (λ r. r.name) (λ r x. record r { name = x }) decode_string) ∷ []

decode_role : Runtime → Decoder CommitteeMemberRole
unfolding role_fields decode_struct decode_string
decode_role rt = decode_struct rt role_fields

abbrev pub empty_vote : CommitteeMemberVote
empty_vote = record { status = "" }

vote_fields : Table CommitteeMemberVote
vote_fields = ("status", on (λ r. r.status) (λ r x. record r { status = x }) decode_string) ∷ []

decode_vote : Runtime → Decoder CommitteeMemberVote
unfolding vote_fields decode_struct decode_string
decode_vote rt = decode_struct rt vote_fields

abbrev pub empty_committee_member : CommitteeMemberData
empty_committee_member = record {
  username = "";
  email = "";
  committee_uid = "";
  committee_name = "";
  project_uid = "";
  project_slug = "";
  role = empty_role;
  voting = empty_vote;
  organization = empty_org;
}

committee_member_fields : Runtime → Table CommitteeMemberData
committee_member_fields rt =
    ("username", on (λ r. r.username) (λ r x. record r { username = x }) decode_string)
    ∷ ("email", on (λ r. r.email) (λ r x. record r { email = x }) decode_string)
    ∷ (
      "committee_uid",
      on (λ r. r.committee_uid) (λ r x. record r { committee_uid = x }) decode_string,
    )
    ∷ (
      "committee_name",
      on (λ r. r.committee_name) (λ r x. record r { committee_name = x }) decode_string,
    )
    ∷ ("project_uid", on (λ r. r.project_uid) (λ r x. record r { project_uid = x }) decode_string)
    ∷ (
      "project_slug",
      on (λ r. r.project_slug) (λ r x. record r { project_slug = x }) decode_string,
    )
    ∷ ("role", on (λ r. r.role) (λ r x. record r { role = x }) (decode_role rt))
    ∷ ("voting", on (λ r. r.voting) (λ r x. record r { voting = x }) (decode_vote rt))
    ∷ (
      "organization",
      on (λ r. r.organization) (λ r x. record r { organization = x }) (decode_org rt),
    )
    ∷ []

unfoldable pub decode_committee_member : Runtime → Decoder CommitteeMemberData
unfolding committee_member_fields decode_struct decode_org decode_role decode_string decode_vote
decode_committee_member rt = decode_struct rt (committee_member_fields rt)

abbrev pub empty_person : ProjectPerson
empty_person = record { avatar = ""; email = ""; name = ""; username = "" }

person_fields : Table ProjectPerson
person_fields =
    ("avatar", on (λ r. r.avatar) (λ r x. record r { avatar = x }) decode_string)
    ∷ ("email", on (λ r. r.email) (λ r x. record r { email = x }) decode_string)
    ∷ ("name", on (λ r. r.name) (λ r x. record r { name = x }) decode_string)
    ∷ ("username", on (λ r. r.username) (λ r x. record r { username = x }) decode_string)
    ∷ []

decode_person : Runtime → Decoder ProjectPerson
unfolding person_fields decode_struct decode_string
decode_person rt = decode_struct rt person_fields

abbrev pub empty_project : ProjectData
empty_project = record { uid = ""; writers = none; auditors = none }

project_fields : Runtime → Table ProjectData
project_fields rt =
    ("uid", on (λ r. r.uid) (λ r x. record r { uid = x }) decode_string)
    ∷ (
      "writers",
      on (λ r. r.writers) (λ r x. record r { writers = x })
          (decode_slice empty_person (decode_person rt)),
    )
    ∷ (
      "auditors",
      on (λ r. r.auditors) (λ r x. record r { auditors = x })
          (decode_slice empty_person (decode_person rt)),
    )
    ∷ []

unfoldable pub decode_project : Runtime → Decoder ProjectData
unfolding project_fields decode_struct decode_person decode_slice decode_string
decode_project rt = decode_struct rt (project_fields rt)

abbrev pub empty_groups_io_member : GroupsIoMemberData
empty_groups_io_member = record {
  username = "";
  email = "";
  mailing_list_uid = "";
  project_uid = "";
  project_slug = "";
}

groups_io_member_fields : Table GroupsIoMemberData
groups_io_member_fields =
    ("username", on (λ r. r.username) (λ r x. record r { username = x }) decode_string)
    ∷ ("email", on (λ r. r.email) (λ r x. record r { email = x }) decode_string)
    ∷ (
      "mailing_list_uid",
      on (λ r. r.mailing_list_uid) (λ r x. record r { mailing_list_uid = x }) decode_string,
    )
    ∷ ("project_uid", on (λ r. r.project_uid) (λ r x. record r { project_uid = x }) decode_string)
    ∷ (
      "project_slug",
      on (λ r. r.project_slug) (λ r x. record r { project_slug = x }) decode_string,
    )
    ∷ []

unfoldable pub decode_groups_io_member : Runtime → Decoder GroupsIoMemberData
unfolding groups_io_member_fields decode_struct decode_string
decode_groups_io_member rt = decode_struct rt groups_io_member_fields

abbrev pub empty_meeting_participant : MeetingParticipantData
empty_meeting_participant = record {
  username = "";
  email = "";
  is_attended = false;
  is_invited = false;
  project_uid = "";
  project_slug = "";
}

meeting_participant_fields : Table MeetingParticipantData
meeting_participant_fields =
    ("username", on (λ r. r.username) (λ r x. record r { username = x }) decode_string)
    ∷ ("email", on (λ r. r.email) (λ r x. record r { email = x }) decode_string)
    ∷ ("is_attended", on (λ r. r.is_attended) (λ r x. record r { is_attended = x }) decode_bool)
    ∷ ("is_invited", on (λ r. r.is_invited) (λ r x. record r { is_invited = x }) decode_bool)
    ∷ ("project_uid", on (λ r. r.project_uid) (λ r x. record r { project_uid = x }) decode_string)
    ∷ (
      "project_slug",
      on (λ r. r.project_slug) (λ r x. record r { project_slug = x }) decode_string,
    )
    ∷ []

unfoldable pub decode_meeting_participant : Runtime → Decoder MeetingParticipantData
unfolding meeting_participant_fields decode_struct decode_bool decode_string
decode_meeting_participant rt = decode_struct rt meeting_participant_fields
