-- ===== src/Sources/CdpRoles/Outage.antt =====
-- The source of the CDP roles when the bucket of its cache answers no lookup.
use lfx_v2_persona_service.Prelude.{
  ℕ, String, ◌==◌, false, Bool-cases, inl, inr, Option, none, some, List, [], if◌then◌else◌, Slice,
  ◌≡◌, refl, Result, ok, err, Error, ◌>>=◌,
}
use lfx_v2_persona_service.Runtime.{Runtime}
use lfx_v2_persona_service.Nats.{NatsClient}
use lfx_v2_persona_service.Model.{PersonaRequest, Project}
use lfx_v2_persona_service.Cdp.{ProjectAffiliation}
use lfx_v2_persona_service.Cdp.Client.{CdpClient, resolve_member, get_project_affiliations}
use lfx_v2_persona_service.Cdp.Cache.{
  KeyValue, Cache, get_member_id, get_affiliations, put_member_id, failed, member_id_key,
  affiliations_key,
}
use lfx_v2_persona_service.Sources.CdpRoles.{
  Times, after_member, after_affiliations, member_step, affiliations_step, to_projects,
  source_cdp_roles,
}

-- Every lookup fails.
abbrev pub IsDown : KeyValue → Type 0
IsDown S = (s : S.State) (now : ℕ) (k : String) → (e : Error) × (S.get s now k ≡ failed e)

module _ {Bucket : Type 0} (rt : Runtime) (S : KeyValue) (nats : Option (NatsClient Bucket))
    (client : CdpClient) (req : PersonaRequest) where
  -- What the client alone gives: the projects of the affiliations of the member, and none without a
  -- profile.
  abbrev pub asked_anew : Result (List Project)
  asked_anew = resolve_member rt client req.username req.email >>= λ id.
      if id == ""
      then ok []
      else get_project_affiliations rt client id >>= λ affs. ok (to_projects rt S nats affs)

  module _ (down : IsDown S) (t : Times) where
    member_id_missed :
        (cache : Cache rt S) (now : ℕ) (u : String)
        → (get_member_id rt S cache now u).result.hit ≡ false
    unfolding get_member_id
    member_id_missed none now u = refl
    member_id_missed (some s) now u = rw (get_member_id, (down s now (member_id_key u)).1) refl

    affiliations_missed :
        (cache : Cache rt S) (now : ℕ) (m : String)
        → (get_affiliations rt S cache now m).result.hit ≡ false
    unfolding get_affiliations
    affiliations_missed none now m = refl
    affiliations_missed (some s) now m =
        rw (get_affiliations, (down s now (affiliations_key m)).1) refl

    affiliations_asked :
        (id : String) (cache : Cache rt S) (r : Result (Slice ProjectAffiliation))
        → get_project_affiliations rt client id ≡ r
        → let o = after_affiliations rt S nats [] (affiliations_step rt S client t id cache) in
          (o.result ≡ (r >>= λ affs. ok (to_projects rt S nats affs))) × (o.jobs ≡ [])
    unfolding after_affiliations affiliations_step
    affiliations_asked id cache (err e) h =
        rw (affiliations_missed cache t.affiliations_lookup id, h) (refl, refl)
    affiliations_asked id cache (ok affs) h =
        rw (affiliations_missed cache t.affiliations_lookup id, h) (refl, refl)

    -- When every lookup in the bucket fails, whatever its puts do, or there is no bucket, the source
    -- gives exactly what its client alone gives, its errors included, and starts no refresh.
    pub source_cdp_roles-asked_anew :
        (cache : Cache rt S)
        → let o = source_cdp_roles rt S nats client t req cache in
          (o.result ≡ asked_anew) × (o.jobs ≡ [])
    unfolding source_cdp_roles after_member member_step
    source_cdp_roles-asked_anew cache =
        by_member (resolve_member rt client req.username req.email) refl
      where
        by_member :
            (r : Result String)
            → resolve_member rt client req.username req.email ≡ r
            → let o = source_cdp_roles rt S nats client t req cache in
              (o.result ≡ (
                r >>= λ id.
                if id == ""
                then ok []
                else get_project_affiliations rt client id >>= λ affs.
                    ok (to_projects rt S nats affs)))
              × (o.jobs ≡ [])
        by_member (err e) h =
            rw (member_id_missed cache t.member_lookup req.username, h) (refl, refl)
        by_member (ok id) h = elim (Bool-cases (id == "")) [
          | inl e ↦ rw (member_id_missed cache t.member_lookup req.username, h, e) (refl, refl)
          | inr e ↦
              rw (member_id_missed cache t.member_lookup req.username, h, e, e)
                (affiliations_asked id (put_member_id rt S cache t.member_put req.username id)
                  (get_project_affiliations rt client id) refl)
        ]
