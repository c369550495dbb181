-- ===== src/Sources/CdpRoles/Renewal.antt =====
-- The background refreshes of the CDP roles and the cache.
use lfx_v2_persona_service.Prelude.{
  ℕ, String, ==_of_ne, none, some, Slice, ◌≡◌, ◌≢◌, refl, ap, ◌∙◌, elements, ok,
}
use lfx_v2_persona_service.Json.{Bytes, document}
use lfx_v2_persona_service.Json.Encode.{encode_slice}
use lfx_v2_persona_service.Runtime.{Runtime}
use lfx_v2_persona_service.Cdp.{ProjectAffiliation}
use lfx_v2_persona_service.Cdp.Wire.{encode_affiliation}
use lfx_v2_persona_service.Cdp.Wire.RoundTrip.{CountsFit}
use lfx_v2_persona_service.Cdp.Client.{CdpClient, resolve_member, get_project_affiliations}
use lfx_v2_persona_service.Cdp.Cache.{
  KeyValue, IsLawful, Cache, member_id_key, affiliations_key, get_member_id, put_member_id,
  get_affiliations, put_affiliations,
}
use lfx_v2_persona_service.Cdp.Cache.Laws.{
  recall, get_member_id-put_member_id, get_affiliations-put_affiliations,
}
use lfx_v2_persona_service.Sources.CdpRoles.{Job, run_job}

module _ (rt : Runtime) (S : KeyValue) (client : CdpClient) (now : ℕ) where
  member_refreshed :
      (u email id : String) (cache : Cache rt S)
      → id ≢ ""
      → resolve_member rt client u email ≡ ok id
      → run_job rt S client now (Job.refresh_member_id u email) cache
        ≡ put_member_id rt S cache now u id
  unfolding run_job
  member_refreshed u email id cache ne resolves =
      rw (run_job, resolves) (rw (==_of_ne id "" ne) refl)

  affiliations_refreshed :
      (id : String) (affs : Slice ProjectAffiliation) (cache : Cache rt S)
      → get_project_affiliations rt client id ≡ ok affs
      → run_job rt S client now (Job.refresh_affiliations id) cache
        ≡ put_affiliations rt S cache now id affs
  unfolding run_job
  affiliations_refreshed id affs cache answers = rw (run_job, answers) refl

-- In a bucket whose entries live for some time, a refresh that the client answers, with a non-empty ID or
-- with counts that fit a Go int, and whose put succeeds renews its entry: until that expires, a lookup
-- gives the answer, which is stale from ten minutes after the refresh, and then it is a miss.
pub run_job-renews :
    (rt : Runtime) (S : KeyValue) (ttl : ℕ)
    → IsLawful S ttl
    → (client : CdpClient) (s : S.State) (now later : ℕ) (u email id : String)
      (affs : Slice ProjectAffiliation)
    → id ≢ ""
    → CountsFit (elements affs)
    → resolve_member rt client u email ≡ ok id
    → get_project_affiliations rt client id ≡ ok affs
    → (S.put s now (member_id_key u) (Bytes.text id)).1 ≡ none
    → (S.put s now (affiliations_key id) (document (encode_slice encode_affiliation affs))).1 ≡ none
    → (get_member_id rt S (run_job rt S client now (Job.refresh_member_id u email) (some s)) later u
        ≡ recall ttl "" later (some (id, now)))
      × (get_affiliations rt S
            (run_job rt S client now (Job.refresh_affiliations id) (some s))
            later
            id
          ≡ recall ttl none later (some (affs, now)))
run_job-renews rt S ttl L client s now later u email id affs ne fits resolves answers stored
      stored_affs =
    (
      ap (λ c. get_member_id rt S c later u)
            (member_refreshed rt S client now u email id (some s) ne resolves)
          ∙ get_member_id-put_member_id rt S ttl L s now later u id stored,
      ap (λ c. get_affiliations rt S c later id)
            (affiliations_refreshed rt S client now id affs (some s) answers)
          ∙ get_affiliations-put_affiliations rt S ttl L s now later id affs fits stored_affs,
    )
