-- ===== src/Tests/Replies.antt =====
-- Runs of the handler: a reply in time, one after the deadline, and a whole request.
use mathlib.Core.List.{Permᴰ}
use mathlib.Core.List.Permᴰ as PermD
use lfx_v2_persona_service.Prelude.{
  ◌+◌, ◌≤◌, true, false, some, none, List, [], ◌∷◌, ◌++◌, ◌≡◌, ◌≢◌, refl, IsDistinct, ok, err,
  message, elements, Slice,
}
use lfx_v2_persona_service.Json.{Json, Fields, Items, Bytes, document, pos}
use lfx_v2_persona_service.Json.Encode.{encode_slice}
use lfx_v2_persona_service.Cdp.Wire.{
  encode_affiliation, decode_resolve_response, decode_affiliations_response,
}
use lfx_v2_persona_service.Text.{equal_fold, trim_space}
use lfx_v2_persona_service.Username.{is_valid_query_username}
use lfx_v2_persona_service.Sources.CdpRoles.{source_cdp_roles}
use lfx_v2_persona_service.Model.{Project, Detection, merge_projects}
use lfx_v2_persona_service.Model.Source
use lfx_v2_persona_service.Model.Merge.{uids}
use lfx_v2_persona_service.Handler.{
  SourceResult, PersonaHandler, sources, no_sources, accepted, validate,
}
use lfx_v2_persona_service.Handler.Validation.{Guaranteed, validate-Guaranteed}
use lfx_v2_persona_service.Handler.Collector.{
  Collector, replied, start, finish, close, expire, receive_result, receive_closed, context_done,
  drain_result, drained, Run, here, then_, timeout_response, receive, on_closed,
}
use lfx_v2_persona_service.Handler.Collector.Progress.{
  work, steps, steps-le-work, HasReplied, expired_replies,
}
use lfx_v2_persona_service.Handler.Collector.Replies.{
  reply_within_sources, reply_complete, reply_well_formed,
}
use lfx_v2_persona_service.Handler.Answers.{GetPersona, Run-reply}
use lfx_v2_persona_service.Handler.Contract.{GetPersona-response_schema}
use lfx_v2_persona_service.Model.Contract.{response_schema}
use lfx_v2_persona_service.Model.Wire.{encode_response}
use lfx_v2_persona_service.Tests.Samples.{
  ascii, memory, ada, project, seen_by, cdp, project_service, times,
}

abbrev pub lists : SourceResult
lists = record {
  name = "mailing_list";
  result = ok (project "u1" "kernel" Source.mailing_list ∷ []);
}

abbrev pub broken : SourceResult
broken = record { name = "cdp_roles"; result = err (message "connection refused") }

abbrev pub meetings : SourceResult
meetings = record {
  name = "meeting_attendance";
  result = ok (project "u1" "kernel" Source.meeting_attendance ∷ []);
}

abbrev pub three : List SourceResult
three = lists ∷ broken ∷ meetings ∷ []

abbrev pub both : Slice Project
both = some (
    record {
      project_uid = "u1";
      project_slug = "kernel";
      detections = seen_by Source.meeting_attendance ∷ seen_by Source.mailing_list ∷ [];
    }
    ∷ [])

-- All three sources have answered, the last first, and the channel was closed.
abbrev pub in_time : Collector
in_time = record {
  pending = [];
  buffer = [];
  closed = true;
  expired = false;
  projects = both;
  phase = replied (record { projects = both; error = none });
}

pub run_in_time : Run (start three) in_time
unfolding receive merge_projects on_closed
run_in_time =
    then_
      (then_
        (then_
          (then_
            (then_
              (then_
                (then_ (then_ here (finish (lists ∷ broken ∷ []) [] meetings refl))
                  (finish (lists ∷ []) [] broken refl))
                (receive_result meetings (broken ∷ []) refl refl))
              (finish [] [] lists refl))
            (close refl refl))
          (receive_result broken (lists ∷ []) refl refl))
        (receive_result lists [] refl refl))
      (receive_closed refl refl refl)

reply_complete_example :
    Permᴰ
      (seen_by Source.meeting_attendance ∷ seen_by Source.mailing_list ∷ [])
      (seen_by Source.mailing_list ∷ seen_by Source.meeting_attendance ∷ [])
reply_complete_example =
    reply_complete three in_time run_in_time (record { projects = both; error = none }) refl "u1"
      refl

reply_well_formed_example : (both ≢ none) × IsDistinct (uids (elements both))
reply_well_formed_example =
    reply_well_formed three in_time run_in_time (record { projects = both; error = none }) refl

-- The deadline fires when only the mailing lists have answered.
abbrev lists_only : Slice Project
lists_only = some (project "u1" "kernel" Source.mailing_list ∷ [])

abbrev late : Collector
late = record {
  pending = broken ∷ meetings ∷ [];
  buffer = [];
  closed = false;
  expired = true;
  projects = lists_only;
  phase = replied (record {
    projects = lists_only;
    error = some (record {
      code = "handler_timeout";
      message = "persona detection timed out; upstream sources did not respond in time";
    });
  });
}

abbrev expired_early : Collector
expired_early = record (start three) {
  pending = broken ∷ meetings ∷ [];
  buffer = lists ∷ [];
  expired = true;
}

run_late : Run (start three) late
unfolding receive merge_projects timeout_response
run_late =
    then_
      (then_
        (then_ (then_ (then_ here (finish [] (broken ∷ meetings ∷ []) lists refl)) (expire refl))
          (context_done refl refl))
        (drain_result lists [] refl refl))
      (drained refl refl)

reply_within_sources_example :
    (rest : List Detection) × Permᴰ
      ((seen_by Source.mailing_list ∷ []) ++ rest)
      (seen_by Source.mailing_list ∷ seen_by Source.meeting_attendance ∷ [])
reply_within_sources_example =
    reply_within_sources three late run_late
      (record {
        projects = lists_only;
        error = some (record {
          code = "handler_timeout";
          message = "persona detection timed out; upstream sources did not respond in time";
        });
      })
      refl "u1"

steps-le-work_example : steps run_late + work late ≤ work (start three)
steps-le-work_example = steps-le-work run_late

Run-reply_example : (e : Collector) × Run (start three) e × HasReplied e
Run-reply_example = Run-reply {c = start three} {d = start three} here

expired_replies_example :
    (d : Collector) × Run expired_early d
    × (d.phase ≡ replied (timeout_response lists_only))
    × (d.pending ≡ broken ∷ meetings ∷ [])
unfolding receive merge_projects
expired_replies_example = expired_replies expired_early refl refl

-- A request as JSON, with space around its values.
abbrev request_document : Bytes
request_document = document (
    Json.obj (
      Fields.field "username" (Json.str " ada ")
        (Fields.field "email" (Json.str " Ada@Example.org") Fields.end)))

validate-Guaranteed_example : Guaranteed (validate ascii request_document)
validate-Guaranteed_example = validate-Guaranteed ascii request_document

-- The CDP alone, with no cache.
abbrev handler : PersonaHandler ascii memory Unit
handler = record (no_sources ascii memory Unit) {
  cdp_client = some cdp;
  nats_client = some project_service;
}

abbrev cdp_project : Project
cdp_project = record {
  project_uid = "uid-kernel";
  project_slug = "kernel";
  detections =
      record {
        source = Source.cdp_roles;
        extra = some (
            Json.obj (
              Fields.field "contributionCount" (Json.int (pos 7))
                (Fields.field "roles" (Json.arr Items.nil) Fields.end)));
      }
      ∷ [];
}

abbrev cdp_result : SourceResult
cdp_result = record { name = "cdp_roles"; result = ok (cdp_project ∷ []) }

-- The one source, computed.
sources_of_handler : sources ascii memory Unit (λ ms. ms) times handler ada ≡ cdp_result ∷ []
unfolding sources source_cdp_roles decode_resolve_response decode_affiliations_response encode_slice
    encode_affiliation equal_fold trim_space
sources_of_handler = refl

abbrev answered : Slice Project
answered = some (cdp_project ∷ [])

abbrev handled : Collector
handled = record {
  pending = [];
  buffer = [];
  closed = true;
  expired = false;
  projects = answered;
  phase = replied (record { projects = answered; error = none });
}

run_handled : Run (start (cdp_result ∷ [])) handled
unfolding receive merge_projects on_closed
run_handled =
    then_
      (then_ (then_ (then_ here (finish [] [] cdp_result refl)) (close refl refl))
        (receive_result cdp_result [] refl refl))
      (receive_closed refl refl refl)

request_accepted : validate ascii request_document ≡ accepted ada
unfolding validate equal_fold is_valid_query_username
request_accepted = refl

GetPersona-response_schema_example :
    response_schema (encode_response (record { projects = answered; error = none })) ≡ true
unfolding sources source_cdp_roles decode_resolve_response decode_affiliations_response encode_slice
    encode_affiliation equal_fold trim_space
GetPersona-response_schema_example =
    GetPersona-response_schema ascii memory Unit (λ ms. ms) (λ ms. PermD.refl ms) times handler
      request_document (record { projects = answered; error = none })
      (GetPersona.collected ada handled (record { projects = answered; error = none })
        request_accepted run_handled refl)
