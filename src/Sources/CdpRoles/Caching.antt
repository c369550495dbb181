-- ===== src/Sources/CdpRoles/Caching.antt =====
-- How the source of the CDP roles uses its cache.
use lfx_v2_persona_service.Prelude.{
  ℕ, ◌-◌, ◌*◌, ◌^◌, ◌∷◌, if◌then◌else◌, String, ==_of_ne, Bool, true, false, Option, none, some,
  List, [], ◌++◌, Slice, leb, ◌≡◌, ◌≢◌, refl, ap, ◌∙◌, elements, ok,
}
use lfx_v2_persona_service.Json.{Bytes, document}
use lfx_v2_persona_service.Json.Encode.{encode_slice}
use lfx_v2_persona_service.Runtime.{Runtime}
use lfx_v2_persona_service.Nats.{NatsClient}
use lfx_v2_persona_service.Model.{PersonaRequest}
use lfx_v2_persona_service.Cdp.{ProjectAffiliation}
use lfx_v2_persona_service.Cdp.Wire.{encode_affiliation}
use lfx_v2_persona_service.Cdp.Wire.RoundTrip.{CountsFit}
use lfx_v2_persona_service.Cdp.Client.{CdpClient, resolve_member, get_project_affiliations}
use lfx_v2_persona_service.Cdp.Cache.{
  KeyValue, IsLawful, Cache, member_id_key, affiliations_key, get_member_id, put_member_id,
  get_affiliations, put_affiliations,
}
use lfx_v2_persona_service.Cdp.Cache.Laws.{
  get_member_id-put_member_id, get_affiliations-put_affiliations, get_affiliations-put_member_id,
  get_member_id-put_affiliations,
}
use lfx_v2_persona_service.Sources.CdpRoles.{
  Job, Times, when_stale, after_member, after_affiliations, member_step, affiliations_step,
  to_projects, source_cdp_roles,
}

module _ {Bucket : Type 0} (rt : Runtime) (S : KeyValue) (nats : Option (NatsClient Bucket)) where
  -- The run whose two steps give a member and its affiliations.
  steps_run :
      (client : CdpClient) (t : Times) (req : PersonaRequest) (cache c d : Cache rt S) (id : String)
      (affs : Slice ProjectAffiliation) (js ks : List Job)
      → id ≢ ""
      → member_step rt S client t req cache ≡ record { result = ok id; cache = c; jobs = js }
      → affiliations_step rt S client t id c ≡ record { result = ok affs; cache = d; jobs = ks }
      → source_cdp_roles rt S nats client t req cache
        ≡ record { result = ok (to_projects rt S nats affs); cache = d; jobs = js ++ ks }
  unfolding source_cdp_roles after_member
  steps_run client t req cache c d id affs js ks ne first second =
      ap (after_member rt S nats client t) first
      ∙ rw (==_of_ne id "" ne) (ap (after_affiliations rt S nats js) second)

  member_hit :
      (client : CdpClient) (t : Times) (req : PersonaRequest) (cache : Cache rt S) (id : String)
      (stale : Bool)
      → get_member_id rt S cache t.member_lookup req.username
        ≡ record { value = id; result = record { hit = true; stale = stale }; error = none }
      → member_step rt S client t req cache ≡ record {
        result = ok id;
        cache = cache;
        jobs = when_stale rt S stale (Job.refresh_member_id req.username req.email);
      }
  unfolding member_step
  member_hit client t req cache id stale e = rw e refl

  affiliations_hit :
      (client : CdpClient) (t : Times) (id : String) (cache : Cache rt S)
      (affs : Slice ProjectAffiliation) (stale : Bool)
      → get_affiliations rt S cache t.affiliations_lookup id
        ≡ record { value = affs; result = record { hit = true; stale = stale }; error = none }
      → affiliations_step rt S client t id cache ≡ record {
        result = ok affs;
        cache = cache;
        jobs = when_stale rt S stale (Job.refresh_affiliations id);
      }
  unfolding affiliations_step
  affiliations_hit client t id cache affs stale e = rw e refl

  member_miss :
      (client : CdpClient) (t : Times) (req : PersonaRequest) (cache : Cache rt S) (id : String)
      → id ≢ ""
      → (get_member_id rt S cache t.member_lookup req.username).result.hit ≡ false
      → resolve_member rt client req.username req.email ≡ ok id
      → member_step rt S client t req cache ≡ record {
        result = ok id;
        cache = put_member_id rt S cache t.member_put req.username id;
        jobs = [];
      }
  unfolding member_step
  member_miss client t req cache id ne miss resolves =
      rw (miss, resolves) (rw (==_of_ne id "" ne) refl)

  affiliations_miss :
      (client : CdpClient) (t : Times) (id : String) (cache : Cache rt S)
      (affs : Slice ProjectAffiliation)
      → (get_affiliations rt S cache t.affiliations_lookup id).result.hit ≡ false
      → get_project_affiliations rt client id ≡ ok affs
      → affiliations_step rt S client t id cache ≡ record {
        result = ok affs;
        cache = put_affiliations rt S cache t.affiliations_put id affs;
        jobs = [];
      }
  unfolding affiliations_step
  affiliations_miss client t id cache affs miss answers = rw (miss, answers) refl

  -- When the lookup of the member gives a non-empty ID and that of its affiliations hits, whatever
  -- their age, the answer is the cached one for any client, the cache stays, and just the stale entries
  -- are refreshed.
  cached_run :
      (client : CdpClient) (t : Times) (req : PersonaRequest) (cache : Cache rt S) (id : String)
      (affs : Slice ProjectAffiliation) (stale stale_affs : Bool)
      → id ≢ ""
      → get_member_id rt S cache t.member_lookup req.username
        ≡ record { value = id; result = record { hit = true; stale = stale }; error = none }
      → get_affiliations rt S cache t.affiliations_lookup id
        ≡ record { value = affs; result = record { hit = true; stale = stale_affs }; error = none }
      → source_cdp_roles rt S nats client t req cache ≡ record {
        result = ok (to_projects rt S nats affs);
        cache = cache;
        jobs =
            when_stale rt S stale (Job.refresh_member_id req.username req.email)
            ++ when_stale rt S stale_affs (Job.refresh_affiliations id);
      }
  cached_run client t req cache id affs stale stale_affs ne member affiliations =
      steps_run client t req cache cache cache id affs _ _ ne
        (member_hit client t req cache id stale member)
        (affiliations_hit client t id cache affs stale_affs affiliations)

-- Whether what was put at a time is ten minutes old at another.
abbrev is_old : ℕ → ℕ → Bool
is_old put_at now = leb (600 * 10 ^ 9) (now - put_at)

module _ (rt : Runtime) (S : KeyValue) (ttl : ℕ) (L : IsLawful S ttl) (client : CdpClient)
    (t : Times) (req : PersonaRequest) (s : S.State) (id : String) (affs : Slice ProjectAffiliation)
    (ne : id ≢ "") (fits : CountsFit (elements affs))
    (cold : (get_member_id rt S (some s) t.member_lookup req.username).result.hit ≡ false)
    (cold_affs : (get_affiliations rt S (some s) t.affiliations_lookup id).result.hit ≡ false)
    (resolves : resolve_member rt client req.username req.email ≡ ok id)
    (answers : get_project_affiliations rt client id ≡ ok affs)
    (stored : (S.put s t.member_put (member_id_key req.username) (Bytes.text id)).1 ≡ none) where
  -- The bucket after the put of the member ID.
  abbrev with_member : S.State
  with_member = (S.put s t.member_put (member_id_key req.username) (Bytes.text id)).0

  -- The cache after a run that found nothing in it.
  abbrev filled : Cache rt S
  filled =
      put_affiliations rt S (put_member_id rt S (some s) t.member_put req.username id)
        t.affiliations_put id affs

  -- A run that finds nothing in the cache asks the client and fills both entries.
  cold_run :
      {Bucket : Type 0} (nats : Option (NatsClient Bucket))
      → source_cdp_roles rt S nats client t req (some s)
        ≡ record { result = ok (to_projects rt S nats affs); cache = filled; jobs = [] }
  cold_run nats =
      steps_run rt S nats client t req (some s) _ filled id affs [] [] ne
        (member_miss rt S nats client t req (some s) id ne cold resolves)
        (affiliations_miss rt S nats client t id _ affs
          (rw
            (get_affiliations-put_member_id rt S ttl L s t.member_put t.affiliations_lookup
              req.username id id stored)
            cold_affs)
          answers)

  module _
      (stored_affs : (S.put with_member t.affiliations_put
          (affiliations_key id)
          (document (encode_slice encode_affiliation affs))).1
        ≡ none) where
    member_kept :
        (now : ℕ)
        → leb ttl (now - t.member_put) ≡ false
        → get_member_id rt S filled now req.username ≡ record {
          value = id;
          result = record { hit = true; stale = is_old t.member_put now };
          error = none;
        }
    unfolding put_member_id
    member_kept now alive =
        get_member_id-put_affiliations rt S ttl L with_member t.affiliations_put now id req.username
          affs stored_affs
        ∙ get_member_id-put_member_id rt S ttl L s t.member_put now req.username id stored
        ∙ rw alive refl

    affiliations_kept :
        (now : ℕ)
        → leb ttl (now - t.affiliations_put) ≡ false
        → get_affiliations rt S filled now id ≡ record {
          value = affs;
          result = record { hit = true; stale = is_old t.affiliations_put now };
          error = none;
        }
    unfolding put_member_id
    affiliations_kept now alive =
        get_affiliations-put_affiliations rt S ttl L with_member t.affiliations_put now id affs fits
          stored_affs
        ∙ rw alive refl

    -- In a bucket whose entries live for some time: when a run finds neither entry, its client gives a
    -- member, with a non-empty ID, and affiliations with counts that fit a Go int, and both puts succeed,
    -- then it starts no refresh, and a later run of the same request, before either entry expires, with
    -- any client of the CDP and any of NATS, makes its projects of the same affiliations, with the slugs
    -- resolved again, keeps the cache, and starts the refresh of just the entries that are ten minutes old.
    pub warm_run :
        {Bucket : Type 0} (nats later_nats : Option (NatsClient Bucket)) (other : CdpClient)
        (u : Times)
        → leb ttl (u.member_lookup - t.member_put) ≡ false
        → leb ttl (u.affiliations_lookup - t.affiliations_put) ≡ false
        → let first = source_cdp_roles rt S nats client t req (some s) in
          (first.result ≡ ok (to_projects rt S nats affs))
          × (first.jobs ≡ [])
          × (source_cdp_roles rt S later_nats other u req first.cache ≡ record {
            result = ok (to_projects rt S later_nats affs);
            cache = first.cache;
            jobs =
                (if is_old t.member_put u.member_lookup
                  then Job.refresh_member_id req.username req.email ∷ []
                  else [])
                ++ (if is_old t.affiliations_put u.affiliations_lookup
                    then Job.refresh_affiliations id ∷ []
                    else []);
          })
    warm_run nats later_nats other u alive alive_affs = rw (cold_run nats) (
      refl,
      refl,
      cached_run rt S later_nats other u req filled id affs _ _ ne
          (member_kept u.member_lookup alive) (affiliations_kept u.affiliations_lookup alive_affs),
    )
