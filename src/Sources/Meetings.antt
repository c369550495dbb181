-- ===== src/Sources/Meetings.antt =====
-- internal/service/source_meeting_attendance.go
use lfx_v2_persona_service.Prelude.{
  String, ◌<>◌, true, none, Option, List, [], ◌∷◌, Result, ok, ◌>>=◌,
}
use lfx_v2_persona_service.Runtime.{Runtime}
use lfx_v2_persona_service.Model.{PersonaRequest, Project}
use lfx_v2_persona_service.Model.Source
use lfx_v2_persona_service.Query.{Resource, MeetingParticipantData}
use lfx_v2_persona_service.Query.Tables.{decode_meeting_participant, empty_meeting_participant}
use lfx_v2_persona_service.Query.Client.{QueryClient, SearchParams, search}
use lfx_v2_persona_service.Sources.Legs.{
  Leg, unless_empty, both_legs, merge_legs, convert, unless_no_uid,
}

-- Both legs look up one tag of a past meeting's participant.
unfoldable pub tag_params : String → SearchParams
tag_params tag = record { kind = "v1_past_meeting_participant"; tags_all = tag ∷ []; filters = [] }

unfoldable pub meeting_project : Resource → MeetingParticipantData → Option Project
meeting_project r m = unless_no_uid m.project_uid (record {
  project_uid = m.project_uid;
  project_slug = m.project_slug;
  detections = record { source = Source.meeting_attendance; extra = none } ∷ [];
})

module _ (rt : Runtime) where
  unfoldable pub meeting_projects : List Resource → List Project
  unfolding convert meeting_project
  meeting_projects =
      convert (decode_meeting_participant rt) empty_meeting_participant meeting_project

  -- What the source makes of its two legs; neither needs a post-filter.
  unfoldable pub from_legs : Leg → Leg → Result (List Project)
  unfolding meeting_projects both_legs merge_legs
  from_legs email username = do
    (tagged, named) ← both_legs email username
    ok (meeting_projects (merge_legs (λ _. true) tagged named))

  unfoldable pub source_meeting_attendance : QueryClient → PersonaRequest → Result (List Project)
  unfolding from_legs search tag_params
  source_meeting_attendance client req =
      from_legs (search rt client (tag_params ("email:" <> req.email)))
        (unless_empty req.username (search rt client (tag_params ("username:" <> req.username))))
