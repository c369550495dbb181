-- ===== src/Sources/Director.antt =====
-- internal/service/source_executive_director.go
use lfx_v2_persona_service.Prelude.{
  String, ◌<>◌, ◌==◌, none, Option, List, [], ◌∷◌, if◌then◌else◌, elements, Result, ok, ◌>>=◌,
}
use lfx_v2_persona_service.Json.Decode.{Table, Decoder, on, decode_string, decode_struct}
use lfx_v2_persona_service.Runtime.{Runtime}
use lfx_v2_persona_service.Text.{equal_fold}
use lfx_v2_persona_service.Nats.{NatsClient}
use lfx_v2_persona_service.Model.{PersonaRequest, Project}
use lfx_v2_persona_service.Model.Source
use lfx_v2_persona_service.Query.{Resource}
use lfx_v2_persona_service.Query.Client.{QueryClient, SearchParams, search}
use lfx_v2_persona_service.Sources.Legs.{convert, unless_no_uid}
use lfx_v2_persona_service.Sources.Slugs.{resolve_project_slug}

pub record EdNestedField : Type 0 where
  pub username : String

pub record EdSettingsData : Type 0 where
  pub uid : String
  pub executive_director : EdNestedField

abbrev pub empty_settings : EdSettingsData
empty_settings = record { uid = ""; executive_director = record { username = "" } }

nested_fields : Table EdNestedField
nested_fields =
    ("username", on (λ r. r.username) (λ r x. record r { username = x }) decode_string) ∷ []

decode_nested : Runtime → Decoder EdNestedField
unfolding nested_fields decode_struct decode_string
decode_nested rt = decode_struct rt nested_fields

settings_fields : Runtime → Table EdSettingsData
settings_fields rt =
    ("uid", on (λ r. r.uid) (λ r x. record r { uid = x }) decode_string)
    ∷ (
      "executive_director",
      on (λ r. r.executive_director) (λ r x. record r { executive_director = x })
          (decode_nested rt),
    )
    ∷ []

unfoldable pub decode_settings : Runtime → Decoder EdSettingsData
unfolding settings_fields decode_nested decode_struct decode_string
decode_settings rt = decode_struct rt (settings_fields rt)

unfoldable pub director_params : PersonaRequest → SearchParams
director_params req = record {
  kind = "project_settings";
  tags_all = [];
  filters = ("executive_director.username:" <> req.username) ∷ [];
}

module _ {Bucket : Type 0} (rt : Runtime) (nats : Option (NatsClient Bucket)) where
  unfoldable pub director_project : PersonaRequest → Resource → EdSettingsData → Option Project
  unfolding resolve_project_slug
  director_project req r m =
      if equal_fold rt m.executive_director.username req.username
      then unless_no_uid m.uid (record {
        project_uid = m.uid;
        project_slug = resolve_project_slug rt nats m.uid;
        detections = record { source = Source.executive_director; extra = none } ∷ [];
      })
      else none

  unfoldable pub director_projects : PersonaRequest → List Resource → List Project
  unfolding convert director_project decode_settings
  director_projects req = convert (decode_settings rt) empty_settings (director_project req)

  unfoldable pub source_executive_director : QueryClient → PersonaRequest → Result (List Project)
  unfolding director_projects search director_params
  source_executive_director client req = if req.username == "" then ok [] else (do
    resources ← search rt client (director_params req)
    ok (director_projects req (elements resources)))
