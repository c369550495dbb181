-- ===== src/Query.antt =====
-- internal/infrastructure/query/models.go: the resources that the Query Service returns.
pub mod Tables
pub mod Client
use lfx_v2_persona_service.Prelude.{String, Bool, Option, Slice}
use lfx_v2_persona_service.Json.{Json}

-- `data` is the raw document of the field, `none` where it was missing.
pub record Resource : Type 0 where
  pub id : String
  pub kind : String
  pub slug : String
  pub fields : Option Json
  pub tags : Slice String

pub record ResourceResponse : Type 0 where
  pub resources : Slice Resource

pub record CommitteeMemberOrg : Type 0 where
  pub id : String
  pub name : String
  pub website : String

pub record CommitteeMemberRole : Type 0 where
  pub name : String

pub record CommitteeMemberVote : Type 0 where
  pub status : String

pub record CommitteeMemberData : Type 0 where
  pub username : String
  pub email : String
  pub committee_uid : String
  pub committee_name : String
  pub project_uid : String
  pub project_slug : String
  pub role : CommitteeMemberRole
  pub voting : CommitteeMemberVote
  pub organization : CommitteeMemberOrg

pub record ProjectPerson : Type 0 where
  pub avatar : String
  pub email : String
  pub name : String
  pub username : String

pub record ProjectData : Type 0 where
  pub uid : String
  pub writers : Slice ProjectPerson
  pub auditors : Slice ProjectPerson

pub record GroupsIoMemberData : Type 0 where
  pub username : String
  pub email : String
  pub mailing_list_uid : String
  pub project_uid : String
  pub project_slug : String

pub record MeetingParticipantData : Type 0 where
  pub username : String
  pub email : String
  pub is_attended : Bool
  pub is_invited : Bool
  pub project_uid : String
  pub project_slug : String
