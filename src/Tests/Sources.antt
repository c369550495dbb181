-- ===== src/Tests/Sources.antt =====
-- Sources whose searches fail, and the slugs of affiliations.
use lfx_v2_persona_service.Prelude.{
  ◌↔◌, refl, true, false, some, none, [], ◌∷◌, ◌≡◌, All, is_err, ok, err, message, lookup,
}
use lfx_v2_persona_service.Query.Client.{QueryClient, search}
use lfx_v2_persona_service.Cdp.{ProjectAffiliation}
use lfx_v2_persona_service.Sources.MailingList
use lfx_v2_persona_service.Sources.Meetings
use lfx_v2_persona_service.Sources.Committee
use lfx_v2_persona_service.Sources.Director
use lfx_v2_persona_service.Sources.Access
use lfx_v2_persona_service.Sources.Failures.{source_failures}
use lfx_v2_persona_service.Sources.Affiliations.{
  affiliations_to_projects, is_resolvable, resolve_slugs_to_uids, resolve_slug,
}
use lfx_v2_persona_service.Text.{trim_space}
use lfx_v2_persona_service.Sources.Resolution.{
  IsResolvedBy, IsResolution, lookup-resolve_slugs_to_uids, affiliations_to_projects-IsResolvedBy,
}
use lfx_v2_persona_service.Tests.Samples.{ascii, ada, kernel_affiliation, project_service}

-- No search is answered.
abbrev query_down : QueryClient
query_down = record {
  base_url = "https://query";
  parse_url = λ u. ok u;
  token_func = none;
  send = λ r. err (message "connection refused");
}

source_failures_example :
    (is_err (MailingList.source_mailing_list ascii query_down ada) ≡ true)
    × (is_err (Meetings.source_meeting_attendance ascii query_down ada) ≡ true)
    × (is_err (Access.source_writer_auditor ascii (some project_service) (λ ms. ms) query_down ada)
        ≡ true)
    × (is_err (Director.source_executive_director ascii (some project_service) query_down ada)
        ≡ true)
    × (is_err (Committee.source_board_member_and_committee ascii query_down ada) ≡ false)
unfolding search
source_failures_example = source_failures ascii (some project_service) (λ ms. ms) query_down ada

abbrev cdp_only : ProjectAffiliation
cdp_only = record kernel_affiliation { project_slug = "nonlf_other" }

lookup-resolve_slugs_to_uids_example :
    (lookup "kernel" (
        resolve_slugs_to_uids ascii
          (some project_service)
          (cdp_only ∷ kernel_affiliation ∷ kernel_affiliation ∷ []))
      ≡ some "uid-kernel")
    ↔ IsResolution ascii project_service
        (cdp_only ∷ kernel_affiliation ∷ kernel_affiliation ∷ [])
        "kernel"
        "uid-kernel"
lookup-resolve_slugs_to_uids_example =
    lookup-resolve_slugs_to_uids ascii project_service
      (cdp_only ∷ kernel_affiliation ∷ kernel_affiliation ∷ []) "kernel" "uid-kernel"

-- It is resolved: the right side holds.
kernel-resolved :
    lookup "kernel" (
      resolve_slugs_to_uids ascii
        (some project_service)
        (cdp_only ∷ kernel_affiliation ∷ kernel_affiliation ∷ []))
    ≡ some "uid-kernel"
unfolding is_resolvable resolve_slug trim_space resolve_slugs_to_uids
kernel-resolved = refl

affiliations_to_projects-IsResolvedBy_example :
    All
      (IsResolvedBy (("kernel", "u1") ∷ []))
      (affiliations_to_projects (cdp_only ∷ kernel_affiliation ∷ []) (("kernel", "u1") ∷ []))
affiliations_to_projects-IsResolvedBy_example =
    affiliations_to_projects-IsResolvedBy (cdp_only ∷ kernel_affiliation ∷ [])
      (("kernel", "u1") ∷ [])
