-- ===== src/Sources/CdpRoles.antt =====
-- `sourceCDPRoles` of internal/service/message_handler.go and the two background refreshes.
pub mod Caching
pub mod Renewal
pub mod Outage
use lfx_v2_persona_service.Prelude.{
  ℕ, String, ◌==◌, Bool, true, false, Option, none, some, List, [], ◌∷◌, ◌++◌, if◌then◌else◌, Slice,
  elements, Result, ok, err,
}
use lfx_v2_persona_service.Runtime.{Runtime}
use lfx_v2_persona_service.Nats.{NatsClient}
use lfx_v2_persona_service.Model.{PersonaRequest, Project}
use lfx_v2_persona_service.Cdp.{ProjectAffiliation}
use lfx_v2_persona_service.Cdp.Client.{CdpClient, resolve_member, get_project_affiliations}
use lfx_v2_persona_service.Cdp.Cache.{
  KeyValue, Cache, Cached, get_member_id, put_member_id, get_affiliations, put_affiliations,
}
use lfx_v2_persona_service.Sources.Affiliations.{resolve_slugs_to_uids, affiliations_to_projects}

-- A refresh started with `go`.
pub data Job : Type 0 where
  refresh_member_id : String → String → Job
  refresh_affiliations : String → Job

-- The times at which the source reads the clock or the bucket stamps an entry.
pub record Times : Type 0 where
  pub member_lookup : ℕ
  pub member_put : ℕ
  pub affiliations_lookup : ℕ
  pub affiliations_put : ℕ

module _ (rt : Runtime) (S : KeyValue) where
  -- A result, the cache after it and the refreshes started.
  abbrev pub Outcome : Type 0 → Type 0
  Outcome A = record { result : Result A; cache : Cache rt S; jobs : List Job }

  abbrev pub when_stale : Bool → Job → List Job
  when_stale stale job = if stale then job ∷ [] else []

  -- Step 1: the member ID, empty for no profile.
  unfoldable pub member_step : CdpClient → Times → PersonaRequest → Cache rt S → Outcome String
  unfolding get_member_id put_member_id resolve_member
  member_step client t req cache =
      let c : Cached String = get_member_id rt S cache t.member_lookup req.username in
      if c.result.hit
      then record {
        result = ok c.value;
        cache = cache;
        jobs = when_stale c.result.stale (refresh_member_id req.username req.email);
      }
      else elim (resolve_member rt client req.username req.email) [
        | err e ↦ record { result = err e; cache = cache; jobs = [] }
        | ok id ↦ if id == "" then record { result = ok ""; cache = cache; jobs = [] } else record {
          result = ok id;
          cache = put_member_id rt S cache t.member_put req.username id;
          jobs = [];
        }
      ]

  -- Step 2: the affiliations of a member.
  unfoldable pub affiliations_step :
      CdpClient → Times → String → Cache rt S → Outcome (Slice ProjectAffiliation)
  unfolding get_affiliations put_affiliations get_project_affiliations
  affiliations_step client t id cache =
      let c : Cached (Slice ProjectAffiliation) =
        get_affiliations rt S cache t.affiliations_lookup id in
      if c.result.hit
      then record {
        result = ok c.value;
        cache = cache;
        jobs = when_stale c.result.stale (refresh_affiliations id);
      }
      else elim (get_project_affiliations rt client id) [
        | err e ↦ record { result = err e; cache = cache; jobs = [] }
        | ok affs ↦ record {
          result = ok affs;
          cache = put_affiliations rt S cache t.affiliations_put id affs;
          jobs = [];
        }
      ]

  -- The refreshes, run by their goroutines at some time later.
  unfoldable pub run_job : CdpClient → ℕ → Job → Cache rt S → Cache rt S
  unfolding put_member_id put_affiliations resolve_member get_project_affiliations
  run_job client now (refresh_member_id username email) cache =
      elim (resolve_member rt client username email) [
        | err e ↦ cache
        | ok id ↦ if id == "" then cache else put_member_id rt S cache now username id
      ]
  run_job client now (refresh_affiliations id) cache =
      elim (get_project_affiliations rt client id) [
        | err e ↦ cache
        | ok affs ↦ put_affiliations rt S cache now id affs
      ]

  module _ {Bucket : Type 0} (nats : Option (NatsClient Bucket)) where
    -- Step 3: the projects of the affiliations.
    unfoldable pub to_projects : Slice ProjectAffiliation → List Project
    unfolding resolve_slugs_to_uids affiliations_to_projects
    to_projects affs =
        affiliations_to_projects (elements affs) (resolve_slugs_to_uids rt nats (elements affs))

    unfoldable pub after_affiliations :
        List Job → Outcome (Slice ProjectAffiliation) → Outcome (List Project)
    unfolding to_projects
    after_affiliations jobs o = elim o.result [
      | err e ↦ record { result = err e; cache = o.cache; jobs = jobs ++ o.jobs }
      | ok affs ↦ record { result = ok (to_projects affs); cache = o.cache; jobs = jobs ++ o.jobs }
    ]

    unfoldable pub after_member : CdpClient → Times → Outcome String → Outcome (List Project)
    unfolding after_affiliations affiliations_step
    after_member client t o = elim o.result [
      | err e ↦ record { result = err e; cache = o.cache; jobs = o.jobs }
      | ok id ↦
          if id == ""
          then record { result = ok []; cache = o.cache; jobs = o.jobs }
          else after_affiliations o.jobs (affiliations_step client t id o.cache)
    ]

    unfoldable pub source_cdp_roles :
        CdpClient → Times → PersonaRequest → Cache rt S → Outcome (List Project)
    unfolding after_member member_step
    source_cdp_roles client t req cache = after_member client t (member_step client t req cache)
