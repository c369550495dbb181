-- ===== src/Tests/Caches.antt =====
-- The cache of the CDP roles in memory.
use lfx_v2_persona_service.Prelude.{
  message, ◌+◌, ◌*◌, ◌^◌, List, String, ne_of_==, true, false, none, some, [], ◌∷◌, ◌≡◌, ◌≢◌, refl,
  ok,
}
use lfx_v2_persona_service.Json.{Bytes, document}
use lfx_v2_persona_service.Json.Decode.{decode_slice, unmarshal}
use lfx_v2_persona_service.Json.Encode.{encode_slice}
use lfx_v2_persona_service.Text.{equal_fold}
use lfx_v2_persona_service.Cdp.Wire.{
  decode_affiliations_response, decode_resolve_response, encode_affiliation, decode_affiliation,
  empty_affiliation,
}
use lfx_v2_persona_service.Cdp.Wire.RoundTrip.{decode_affiliations-encode_affiliations}
use lfx_v2_persona_service.Cdp.Client.{resolve_member, get_project_affiliations}
use lfx_v2_persona_service.Cdp.Cache.{
  KeyValue, Lookup, Cache, get_member_id, put_member_id, get_affiliations, put_affiliations,
}
use lfx_v2_persona_service.Nats.{NatsClient}
use lfx_v2_persona_service.Cdp.Cache.Laws.{recall}
use lfx_v2_persona_service.Cdp.Cache.Refinement.{
  Write, Represents, forgotten, remember_all, write_all, write_all-refines,
}
use lfx_v2_persona_service.Sources.CdpRoles.{Job, Times, run_job, to_projects, source_cdp_roles}
use lfx_v2_persona_service.Sources.CdpRoles.Caching.{warm_run}
use lfx_v2_persona_service.Sources.CdpRoles.Outage.{asked_anew, source_cdp_roles-asked_anew}
use lfx_v2_persona_service.Sources.CdpRoles.Renewal.{run_job-renews}
use lfx_v2_persona_service.Tests.Samples.{
  ascii, memory, memory-IsLawful, ada, affiliations, day, cdp, cdp_down, project_service, times,
}

abbrev empty_cache : Cache ascii memory
empty_cache = some []

abbrev filled : memory.State
filled =
    (
      "cdp.affiliations.m1",
      record { value = document (encode_slice encode_affiliation affiliations); created = 2 },
    )
    ∷ ("cdp.member_id.ada", record { value = Bytes.text "m1"; created = 1 })
    ∷ []

abbrev filled_cache : Cache ascii memory
filled_cache = some filled

-- The project service that gives the slug another UID.
abbrev renamed_service : NatsClient Unit
renamed_service = record {
  conn = some (record {
    is_connected = true;
    is_draining = false;
    request_msg = λ subject body. ok (Bytes.text "uid-linux");
    queue_subscribe = λ subject queue. none;
  });
  kv_store = [];
}

m1-ne-empty : ◌≢◌ {A = String} "m1" ""
m1-ne-empty = ne_of_== "m1" "" refl

cdp-resolves : resolve_member ascii cdp "ada" "ada@example.org" ≡ ok "m1"
unfolding resolve_member unmarshal decode_resolve_response equal_fold
cdp-resolves = refl

cdp-answers : get_project_affiliations ascii cdp "m1" ≡ ok affiliations
unfolding get_project_affiliations unmarshal decode_affiliations_response equal_fold encode_slice
    encode_affiliation
cdp-answers = refl

-- Ada's ID is renewed under another one.
abbrev writes : List Write
writes =
    Write.member_id_of 5 "ada" "m1"
    ∷ Write.affiliations_of 6 "m1" affiliations
    ∷ Write.member_id_of 9 "ada" "m2"
    ∷ []

write_all-refines_example :
    Represents ascii memory day []
      (write_all ascii memory writes empty_cache)
      (remember_all writes forgotten)
write_all-refines_example =
    write_all-refines ascii memory day memory-IsLawful writes []
      (tt, refl, ((refl, tt), refl, (tt, refl, tt)))

decode_affiliations-encode_affiliations_example :
    decode_slice empty_affiliation
      (decode_affiliation ascii)
      (encode_slice encode_affiliation affiliations)
      none
    ≡ some affiliations
decode_affiliations-encode_affiliations_example =
    decode_affiliations-encode_affiliations ascii affiliations (refl, tt)

-- The second run, eleven minutes later, has no CDP to ask and another project service: it answers from
-- the cache and refreshes both entries.
abbrev eleven_minutes_later : Times
eleven_minutes_later = record times {
  member_lookup = 660 * 10 ^ 9;
  affiliations_lookup = 660 * 10 ^ 9;
}

warm_run_example :
    let first = source_cdp_roles ascii memory (some project_service) cdp times ada empty_cache in
    (first.result ≡ ok (to_projects ascii memory (some project_service) affiliations))
    × (first.jobs ≡ [])
    × (source_cdp_roles ascii memory
          (some renamed_service)
          cdp_down
          eleven_minutes_later
          ada
          first.cache
        ≡ record {
          result = ok (to_projects ascii memory (some renamed_service) affiliations);
          cache = first.cache;
          jobs = Job.refresh_member_id "ada" "ada@example.org" ∷ Job.refresh_affiliations "m1" ∷ [];
        })
unfolding get_member_id get_affiliations put_affiliations put_member_id
warm_run_example =
    warm_run ascii memory day memory-IsLawful cdp times ada [] "m1" affiliations m1-ne-empty
      (refl, tt) refl refl cdp-resolves cdp-answers refl refl (some project_service)
      (some renamed_service) cdp_down eleven_minutes_later refl refl

-- Read eleven minutes after the refresh.
run_job-renews_example :
    (get_member_id ascii memory
        (run_job ascii memory cdp 700 (Job.refresh_member_id "ada" "ada@example.org") filled_cache)
        (700 + 660 * 10 ^ 9)
        "ada"
      ≡ recall day "" (700 + 660 * 10 ^ 9) (some ("m1", 700)))
    × (get_affiliations ascii memory
          (run_job ascii memory cdp 700 (Job.refresh_affiliations "m1") filled_cache)
          (700 + 660 * 10 ^ 9)
          "m1"
        ≡ recall day none (700 + 660 * 10 ^ 9) (some (affiliations, 700)))
run_job-renews_example =
    run_job-renews ascii memory day memory-IsLawful cdp filled 700 (700 + 660 * 10 ^ 9) "ada"
      "ada@example.org" "m1" affiliations m1-ne-empty (refl, tt) cdp-resolves cdp-answers refl refl

-- A bucket that has lost its server.
abbrev broken : KeyValue
broken = record {
  State = Unit;
  get = λ s now k. Lookup.failed (message "timeout");
  put = λ s now k v. (tt, some (message "timeout"));
}

source_cdp_roles-asked_anew_example :
    let o = source_cdp_roles ascii broken (some project_service) cdp times ada (some tt) in
    (o.result ≡ asked_anew ascii broken (some project_service) cdp ada) × (o.jobs ≡ [])
source_cdp_roles-asked_anew_example =
    source_cdp_roles-asked_anew ascii broken (some project_service) cdp ada
      (λ s now k. (message "timeout", refl)) times (some tt)

-- It has the project of the affiliation.
asked_anew-ok :
    asked_anew ascii broken (some project_service) cdp ada
    ≡ ok (to_projects ascii broken (some project_service) affiliations)
asked_anew-ok = rw (cdp-resolves, cdp-answers) refl
