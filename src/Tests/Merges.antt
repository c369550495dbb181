-- ===== src/Tests/Merges.antt =====
-- Merges of projects and of resources, and the clauses that a username becomes.
use lfx_v2_persona_service.Prelude.{
  ◌==◌, ◌||◌, ◌<>◌, ◌↔◌, false, true, some, List, [], ◌∷◌, ◌++◌, ◌≡◌, refl,
}
use lfx_v2_persona_service.Json.{Json, Fields, Items}
use lfx_v2_persona_service.Json.Decode.{decode_raw}
use lfx_v2_persona_service.Text.{equal_fold}
use lfx_v2_persona_service.Model.{Project, PersonaRequest, merge_projects}
use lfx_v2_persona_service.Model.Source
use lfx_v2_persona_service.Model.Merge.{collapse, uids, merge_projects-collapse}
use lfx_v2_persona_service.Model.Detections.{
  detections_of, slug_of, detections_of-merge_projects, merge_projects_entries,
}
use lfx_v2_persona_service.Model.Successive.{merge_projects-append}
use lfx_v2_persona_service.Query.{Resource}
use lfx_v2_persona_service.Sources.Legs.{merge_legs}
use lfx_v2_persona_service.Sources.Merging.{unique_after, merge_legs-unique}
use lfx_v2_persona_service.Sources.Access.{matches}
use lfx_v2_persona_service.Query.Tables.{decode_project}
use lfx_v2_persona_service.Username.{is_valid_query_username}
use lfx_v2_persona_service.Sources.AccessTokens.{tokens_of, tokens_of-matches}
use lfx_v2_persona_service.Sources.Clauses.{
  SendsFilters, SendsTags, username_clauses, email_tags_split,
}
use lfx_v2_persona_service.Sources.Committee
use lfx_v2_persona_service.Sources.Director.{director_params}
use lfx_v2_persona_service.Sources.Access.{writer_params, auditor_params}
use lfx_v2_persona_service.Sources.MailingList
use lfx_v2_persona_service.Sources.Meetings.{tag_params}
use lfx_v2_persona_service.Username.Filters.{has}
use lfx_v2_persona_service.Tests.Samples.{ascii, ada, project, seen_by, resource}

abbrev from_lists : List Project
from_lists =
    project "u1" "kernel" Source.mailing_list
    ∷ project "u2" "" Source.mailing_list
    ∷ project "u1" "renamed" Source.meeting_attendance
    ∷ []

abbrev from_access : List Project
from_access = project "u2" "zephyr" Source.writer ∷ project "u3" "" Source.auditor ∷ []

merge_projects-collapse_example :
    merge_projects from_lists from_access ≡ collapse (from_lists ++ from_access)
merge_projects-collapse_example = merge_projects-collapse from_lists from_access

detections_of-merge_projects_example :
    detections_of "u1" (merge_projects from_lists from_access)
    ≡ seen_by Source.mailing_list ∷ seen_by Source.meeting_attendance ∷ []
detections_of-merge_projects_example = detections_of-merge_projects "u1" from_lists from_access

merge_projects_entries_example :
    (uids (merge_projects from_lists from_access) ≡ "u1" ∷ "u2" ∷ "u3" ∷ [])
    × (slug_of "u1" (merge_projects from_lists from_access) ≡ some "kernel")
merge_projects_entries_example = merge_projects_entries "u1" from_lists from_access

-- The second username resource is not accepted, the third is the email leg's.
merge_legs-unique_example :
    merge_legs
      (λ r. r.id == "c" || r.id == "a")
      (resource "a" ∷ resource "a" ∷ [])
      (resource "c" ∷ resource "d" ∷ resource "a" ∷ [])
    ≡ resource "a" ∷ resource "c" ∷ []
unfolding unique_after
merge_legs-unique_example =
    merge_legs-unique (λ r. r.id == "c" || r.id == "a") (resource "a" ∷ resource "a" ∷ [])
      (resource "c" ∷ resource "d" ∷ resource "a" ∷ [])

-- A resource with the caller, in other case, among its writers.
abbrev written : Resource
written = record (resource "p1") {
  fields = some (
      Json.obj (
        Fields.field "uid" (Json.str "u1") (
          Fields.field "writers"
            (Json.arr (
              Items.cons (Json.obj (Fields.field "username" (Json.str "ADA") Fields.end))
                Items.nil))
            Fields.end)));
}

-- Both legs return the resource; only the writers leg finds the caller in its own array.
tokens_of-matches_example :
    tokens_of "p1" (matches ascii ada (written ∷ []) (written ∷ [])) ≡ Source.writer ∷ []
unfolding decode_raw decode_project equal_fold
tokens_of-matches_example = tokens_of-matches ascii ada (written ∷ []) (written ∷ []) "p1"

abbrev two_emails : PersonaRequest
two_emails = record { username = ""; email = "a@b.org,admin" }

username_clauses_example :
    SendsFilters (Committee.username_params ada true)
    × SendsFilters (MailingList.username_params ada)
    × SendsFilters (director_params ada)
    × SendsFilters (writer_params ada)
    × SendsFilters (auditor_params ada)
    × SendsTags (tag_params ("username:" <> ada.username))
unfolding is_valid_query_username
username_clauses_example = username_clauses ada true refl

email_tags_split_example :
    (SendsTags (Committee.email_params two_emails true) ↔ (has b',' two_emails.email ≡ false))
    × (SendsTags (MailingList.email_params two_emails) ↔ (has b',' two_emails.email ≡ false))
    × (SendsTags (tag_params ("email:" <> two_emails.email)) ↔ (has b',' two_emails.email ≡ false))
email_tags_split_example = email_tags_split two_emails true

merge_projects-append_example :
    merge_projects (merge_projects from_lists from_access) (project "u3" "" Source.writer ∷ [])
    ≡ merge_projects from_lists (from_access ++ project "u3" "" Source.writer ∷ [])
merge_projects-append_example =
    merge_projects-append from_lists from_access (project "u3" "" Source.writer ∷ [])
