-- ===== src/Cdp.antt =====
-- internal/infrastructure/cdp/models.go: what the CDP API takes and returns.
pub mod Wire
pub mod Client
pub mod Auth
pub mod Cache
use lfx_v2_persona_service.Prelude.{String, Bool, Option, Slice}
use lfx_v2_persona_service.Json.{ℤ}

pub record ResolveRequest : Type 0 where
  pub lfids : Slice String
  pub emails : Slice String

pub record ResolveResponse : Type 0 where
  pub member_id : String

pub record ProjectAffiliationRole : Type 0 where
  pub id : String
  pub role : String
  pub start_date : String
  pub end_date : Option String
  pub repo_url : String
  pub repo_file_url : String

pub record ProjectAffiliationEntry : Type 0 where
  pub id : String
  pub organization_logo : String
  pub organization_id : String
  pub organization_name : String
  pub verified : Bool
  pub verified_by : String
  pub source : String
  pub start_date : String
  pub end_date : Option String
  pub kind : String

pub record ProjectAffiliation : Type 0 where
  pub id : String
  pub project_slug : String
  pub project_logo : String
  pub project_name : String
  pub contribution_count : ℤ
  pub roles : Slice ProjectAffiliationRole
  pub affiliations : Slice ProjectAffiliationEntry

pub record ProjectAffiliationsResponse : Type 0 where
  pub project_affiliations : Slice ProjectAffiliation
