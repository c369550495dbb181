-- ===== src/Sources/Access.antt =====
-- internal/service/source_writer_auditor.go
use mathlib.Core.List.{foldl}
use lfx_v2_persona_service.Prelude.{
  String, ◌<>◌, ◌==◌, Bool, false, ◌||◌, none, some, Option, List, [], ◌∷◌, ◌++◌, map,
  if◌then◌else◌, elements, Result, ok, ◌>>=◌,
}
use lfx_v2_persona_service.Json.{Json}
use lfx_v2_persona_service.Json.Decode.{decode_raw}
use lfx_v2_persona_service.Runtime.{Runtime}
use lfx_v2_persona_service.Text.{equal_fold}
use lfx_v2_persona_service.Nats.{NatsClient}
use lfx_v2_persona_service.Model.{PersonaRequest, Project}
use lfx_v2_persona_service.Model.Source
use lfx_v2_persona_service.Query.{Resource, ProjectPerson}
use lfx_v2_persona_service.Query.Tables.{decode_project, empty_project}
use lfx_v2_persona_service.Query.Client.{QueryClient, SearchParams, search}
use lfx_v2_persona_service.Sources.Legs.{Leg, both_legs, unless_no_uid}
use lfx_v2_persona_service.Sources.Slugs.{resolve_project_slug}

unfoldable pub writer_params : PersonaRequest → SearchParams
writer_params req = record {
  kind = "project_settings";
  tags_all = [];
  filters = ("writers.username:" <> req.username) ∷ [];
}

unfoldable pub auditor_params : PersonaRequest → SearchParams
auditor_params req = record {
  kind = "project_settings";
  tags_all = [];
  filters = ("auditors.username:" <> req.username) ∷ [];
}

-- The resource of a match and the tokens that it has so far.
pub record ProjectMatch : Type 0 where
  pub resource : Resource
  pub sources : List String

-- `matches`, by `Resource.ID`: each key once, in the order of insertion.
abbrev pub Matches : Type 0
Matches = List (String × ProjectMatch)

-- `m.sources = append(m.sources, token)`, or a new match of the key.
unfoldable pub add_match : String → Resource → Matches → Matches
add_match token r [] = (r.id, record { resource = r; sources = token ∷ [] }) ∷ []
add_match token r ((k, m) ∷ ms) =
    if k == r.id
    then (k, record m { sources = m.sources ++ token ∷ [] }) ∷ ms
    else (k, m) ∷ add_match token r ms

-- One round of the loop over a leg.
unfoldable pub match_if : (Resource → Bool) → String → Matches → Resource → Matches
unfolding add_match
match_if accept token ms r = if accept r then add_match token r ms else ms

module _ (rt : Runtime) where
  unfoldable pub any_person : String → List ProjectPerson → Bool
  any_person username [] = false
  any_person username (w ∷ ws) = equal_fold rt w.username username || any_person username ws

  unfoldable pub project_contains_writer : Option Json → String → Bool
  unfolding any_person decode_raw
  project_contains_writer raw username = elim (decode_raw (decode_project rt) empty_project raw) [
    | none ↦ false
    | some d ↦ any_person username (elements d.writers)
  ]

  unfoldable pub project_contains_auditor : Option Json → String → Bool
  unfolding any_person decode_raw
  project_contains_auditor raw username = elim (decode_raw (decode_project rt) empty_project raw) [
    | none ↦ false
    | some d ↦ any_person username (elements d.auditors)
  ]

  unfoldable pub matches : PersonaRequest → List Resource → List Resource → Matches
  unfolding match_if project_contains_writer project_contains_auditor
  matches req writers auditors =
      let after_writers =
        foldl (match_if (λ r. project_contains_writer r.fields req.username) Source.writer) []
          writers in
      foldl (match_if (λ r. project_contains_auditor r.fields req.username) Source.auditor)
        after_writers auditors

-- `order` is the order in which `range matches` visits the map.
module _ {Bucket : Type 0} (rt : Runtime) (nats : Option (NatsClient Bucket))
    (order : Matches → Matches) where
  unfoldable pub access_project : ProjectMatch → Option Project
  unfolding decode_raw resolve_project_slug
  access_project m = elim (decode_raw (decode_project rt) empty_project m.resource.fields) [
    | none ↦ none
    | some d ↦ unless_no_uid d.uid (record {
      project_uid = d.uid;
      project_slug = resolve_project_slug rt nats d.uid;
      detections = map (λ src. record { source = src; extra = none }) m.sources;
    })
  ]

  unfoldable pub access_projects : Matches → List Project
  unfolding access_project
  access_projects [] = []
  access_projects ((k, m) ∷ ms) =
      let rest = access_projects ms in elim (access_project m) [ none ↦ rest | some p ↦ p ∷ rest ]

  -- What the source makes of its two legs.
  unfoldable pub from_legs : PersonaRequest → Leg → Leg → Result (List Project)
  unfolding access_projects both_legs matches
  from_legs req writers auditors = do
    (ws, as_) ← both_legs writers auditors
    ok (access_projects (order (matches rt req ws as_)))

  unfoldable pub source_writer_auditor : QueryClient → PersonaRequest → Result (List Project)
  unfolding from_legs search writer_params auditor_params
  source_writer_auditor client req =
      if req.username == ""
      then ok []
      else from_legs req (search rt client (writer_params req))
          (search rt client (auditor_params req))
