-- ===== src/Model.antt =====
-- internal/domain/model/persona.go: the request, the response and the merge of projects.
pub mod Merge
pub mod Detections
pub mod Successive
pub mod Tokens
pub mod Source
pub mod Wire
pub mod Contract
use lfx_v2_persona_service.Prelude.{ℕ, zero, suc, String, Option, none, some, List, [], ◌∷◌, ◌++◌}
use lfx_v2_persona_service.Prelude.{Slice, length, lookup}
use lfx_v2_persona_service.Json.{ℤ, Json}
use mathlib.Core.List.{foldl}

pub record PersonaRequest : Type 0 where
  pub username : String
  pub email : String

pub record ErrorDetail : Type 0 where
  pub code : String
  pub message : String

-- `none` is an empty `Extra`, which `omitempty` leaves out.
pub record Detection : Type 0 where
  pub source : String
  pub extra : Option Json

pub record Project : Type 0 where
  pub project_uid : String
  pub project_slug : String
  pub detections : List Detection

pub record PersonaResponse : Type 0 where
  pub projects : Slice Project
  pub error : Option ErrorDetail

pub record BoardMemberOrganization : Type 0 where
  pub id : String
  pub name : String
  pub website : String

pub record BoardMemberExtra : Type 0 where
  pub committee_uid : String
  pub committee_name : String
  pub committee_member_uid : String
  pub role : String
  pub voting_status : String
  pub organization : BoardMemberOrganization

pub record CommitteeMemberExtra : Type 0 where
  pub committee_uid : String
  pub committee_name : String
  pub committee_member_uid : String
  pub role : String

pub record CdpRolesExtraRole : Type 0 where
  pub id : String
  pub role : String
  pub start_date : String
  pub end_date : Option String
  pub repo_url : String
  pub repo_file_url : String

pub record CdpRolesExtra : Type 0 where
  pub contribution_count : ℤ
  pub roles : Slice CdpRolesExtraRole

-- `idx`: the position in `normalised` of each UID seen.
abbrev pub Index : Type 0
Index = List (String × ℕ)

-- `normalised[i].Detections = append(normalised[i].Detections, ds...)`
append_detections : List Project → ℕ → List Detection → List Project
append_detections [] i ds = []
append_detections (p ∷ l) zero ds = record p { detections = p.detections ++ ds } ∷ l
append_detections (p ∷ l) (suc i) ds = p ∷ append_detections l i ds

-- One round of either loop of `MergeProjects`, after `idx[p.ProjectUID]` was looked up.
merge_at : Option ℕ → Index → List Project → Project → Index × List Project
merge_at (some i) idx normalised p = (idx, append_detections normalised i p.detections)
merge_at none idx normalised p = ((p.project_uid, length normalised) ∷ idx, normalised ++ p ∷ [])

merge_step : Index × List Project → Project → Index × List Project
unfolding merge_at append_detections
merge_step (idx, normalised) p = merge_at (lookup p.project_uid idx) idx normalised p

unfoldable pub merge_projects : List Project → List Project → List Project
unfolding merge_step
merge_projects dst src = (foldl merge_step (foldl merge_step ([], []) dst) src).1
