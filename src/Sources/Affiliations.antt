-- ===== src/Sources/Affiliations.antt =====
-- `resolveSlugsToUIDs` and `affiliationsToProjects` of internal/service/message_handler.go.
use lfx_v2_persona_service.Prelude.{
  String, ◌==◌, Bool, not, ◌&&◌, Option, none, some, List, [], ◌∷◌, map, if◌then◌else◌, contains,
  lookup, elements, starts_with, ok, err,
}
use lfx_v2_persona_service.Json.{text}
use lfx_v2_persona_service.Runtime.{Runtime}
use lfx_v2_persona_service.Nats.{NatsClient, request}
use lfx_v2_persona_service.Model.{Project, CdpRolesExtra, CdpRolesExtraRole}
use lfx_v2_persona_service.Model.Source
use lfx_v2_persona_service.Model.Wire.{encode_cdp_roles_extra}
use lfx_v2_persona_service.Cdp.{ProjectAffiliation, ProjectAffiliationRole}
use lfx_v2_persona_service.Sources.Slugs.{reply_text}

-- A slug to resolve: not empty, and not of a CDP-only project.
unfoldable pub is_resolvable : String → Bool
is_resolvable slug = not (slug == "") && not (starts_with slug "nonlf_")

-- The keys of `unique`.
unfoldable pub unique_slugs : List String → List ProjectAffiliation → List String
unfolding is_resolvable
unique_slugs seen [] = []
unique_slugs seen (aff ∷ affs) =
    let rest = unique_slugs seen affs in
    let more = unique_slugs (aff.project_slug ∷ seen) affs in
    if not (is_resolvable aff.project_slug)
    then rest
    else if contains seen aff.project_slug
    then rest
    else aff.project_slug ∷ more

-- The copy of a role.
extra_role : ProjectAffiliationRole → CdpRolesExtraRole
extra_role r = record {
  id = r.id;
  role = r.role;
  start_date = r.start_date;
  end_date = r.end_date;
  repo_url = r.repo_url;
  repo_file_url = r.repo_file_url;
}

unfoldable pub roles_extra : ProjectAffiliation → CdpRolesExtra
unfolding extra_role
roles_extra aff = record {
  contribution_count = aff.contribution_count;
  roles = some (map extra_role (elements aff.roles));
}

unfoldable pub affiliation_project : ProjectAffiliation → String → Project
unfolding roles_extra encode_cdp_roles_extra
affiliation_project aff uid = record {
  project_uid = uid;
  project_slug = aff.project_slug;
  detections =
      record { source = Source.cdp_roles; extra = some (encode_cdp_roles_extra (roles_extra aff)) }
      ∷ [];
}

-- The UID for an affiliation, if it is kept.
unfoldable pub kept_uid : List (String × String) → String → Option String
kept_uid slugs slug =
    if starts_with slug "nonlf_"
    then none
    else elim (lookup slug slugs) [ none ↦ none | some uid ↦ if uid == "" then none else some uid ]

unfoldable pub affiliations_to_projects :
    List ProjectAffiliation → List (String × String) → List Project
unfolding kept_uid affiliation_project
affiliations_to_projects [] slugs = []
affiliations_to_projects (aff ∷ affs) slugs =
    let rest = affiliations_to_projects affs slugs in
    elim (kept_uid slugs aff.project_slug) [
      | none ↦ rest
      | some uid ↦ affiliation_project aff uid ∷ rest
    ]

module _ {Bucket : Type 0} (rt : Runtime) where
  -- The goroutine of one slug: what it sends to the channel.
  unfoldable pub resolve_slug : NatsClient Bucket → String → Option String
  unfolding reply_text request
  resolve_slug c slug = elim (request c "lfx.projects-api.slug_to_uid" (text slug)) [
    | err e ↦ none
    | ok resp ↦ reply_text rt resp
  ]

  unfoldable pub resolve_all : NatsClient Bucket → List String → List (String × String)
  unfolding resolve_slug
  resolve_all c [] = []
  resolve_all c (slug ∷ slugs) =
      let rest = resolve_all c slugs in
      elim (resolve_slug c slug) [ none ↦ rest | some uid ↦ (slug, uid) ∷ rest ]

  -- The map from slugs to UIDs; that of no client is empty.
  unfoldable pub resolve_slugs_to_uids :
      Option (NatsClient Bucket) → List ProjectAffiliation → List (String × String)
  unfolding resolve_all unique_slugs
  resolve_slugs_to_uids none affs = []
  resolve_slugs_to_uids (some c) affs = resolve_all c (unique_slugs [] affs)
