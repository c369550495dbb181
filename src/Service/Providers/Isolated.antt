-- ===== src/Service/Providers/Isolated.antt =====
-- The CDP source of a handler that cmd/server/service/providers.go makes without a Query Service.
use mathlib.Core.Path.{subst}
use mathlib.Core.List.{Permᴰ}
use mathlib.Core.List.Permᴰ as PermD
use lfx_v2_persona_service.Prelude.{
  String, ◌==◌, false, Bool-cases, inl, inr, Option, none, some, List, [], ◌∷◌, ◌++◌, Slice,
  elements, ◌≡◌, refl, ap, ◌∙◌, Result, ok, err, starts_with,
}
use lfx_v2_persona_service.Runtime.{Runtime}
use lfx_v2_persona_service.Nats.{NatsClient}
use lfx_v2_persona_service.Model.{PersonaRequest, PersonaResponse}
use lfx_v2_persona_service.Model.Detections.{detections_of}
use lfx_v2_persona_service.Query.Client.{QueryClient}
use lfx_v2_persona_service.Cdp.{ProjectAffiliation}
use lfx_v2_persona_service.Cdp.Client.{CdpClient}
use lfx_v2_persona_service.Cdp.Cache.{KeyValue, Cache}
use lfx_v2_persona_service.Json.{Bytes}
use lfx_v2_persona_service.Sources.Access.{Matches}
use lfx_v2_persona_service.Sources.Affiliations.{affiliations_to_projects, kept_uid}
use lfx_v2_persona_service.Sources.CdpRoles.{
  Job, Times, member_step, affiliations_step, to_projects, after_member, after_affiliations,
  source_cdp_roles,
}
use lfx_v2_persona_service.Handler.{PersonaHandler, query_sources, sources, with_handler_timeout}
use lfx_v2_persona_service.Handler.Collector.Replies.{found_by, found_by_all, reply_within_sources}
use lfx_v2_persona_service.Handler.Validation.{Guaranteed, validate-Guaranteed}
use lfx_v2_persona_service.Handler.Answers.{GetPersona}
use lfx_v2_persona_service.Service.Providers.{
  Platform, App, new_query_client, new_cdp_client, with_query, build_handler,
}
use lfx_v2_persona_service.Service.Providers.Enabled.{
  query_configured, is_client, is_some, queried, new_query_client-is_client, nats_added,
  query-build_handler,
}

kept_nothing : (slug : String) → kept_uid [] slug ≡ none
unfolding kept_uid
kept_nothing slug = elim (Bool-cases (starts_with slug "nonlf_")) [
  | inl e ↦ rw e refl
  | inr e ↦ rw e refl
]

-- No slug is kept by an empty map.
no_projects : (affs : List ProjectAffiliation) → affiliations_to_projects affs [] ≡ []
unfolding affiliations_to_projects
no_projects [] = refl
no_projects (aff ∷ affs) =
    rw (affiliations_to_projects, kept_nothing aff.project_slug) (no_projects affs)

is_none : {A : Type 0} (o : Option A) → is_some o ≡ false → o ≡ none
is_none none e = refl
is_none (some a) e = cc

module _ (Bucket : Type 0) (rt : Runtime) (S : KeyValue) (k : String) where
  last_step :
      (js ks : List Job) (cache : Cache rt S) (r : Result (Slice ProjectAffiliation))
      → found_by k
          (after_affiliations rt S {Bucket = Bucket} none js
            (record { result = r; cache = cache; jobs = ks })).result
        ≡ []
  unfolding after_affiliations to_projects
  last_step js ks cache (err e) = refl
  last_step js ks cache (ok affs) = ap (detections_of k) (no_projects (elements affs))

  both_steps :
      (client : CdpClient) (t : Times) (js : List Job) (cache : Cache rt S) (r : Result String)
      → found_by k
          (after_member rt S {Bucket = Bucket} none client t
            (record { result = r; cache = cache; jobs = js })).result
        ≡ []
  unfolding after_member
  both_steps client t js cache (err e) = refl
  both_steps client t js cache (ok id) = elim (Bool-cases (id == "")) [
    | inl e ↦ rw e refl
    | inr e ↦
        rw e
          (let o = affiliations_step rt S client t id cache in last_step js o.jobs o.cache o.result)
  ]

  cdp_finds_nothing :
      (client : CdpClient) (t : Times) (req : PersonaRequest) (cache : Cache rt S)
      → found_by k (source_cdp_roles rt S {Bucket = Bucket} none client t req cache).result ≡ []
  unfolding source_cdp_roles
  cdp_finds_nothing client t req cache =
      let o = member_step rt S client t req cache in both_steps client t o.jobs o.cache o.result

module _ (rt : Runtime) (S : KeyValue) (Bucket : Type 0) (order : Matches → Matches) (t : Times)
    (req : PersonaRequest) (k : String) where
  no_sources_but_cdp :
      (h : PersonaHandler rt S Bucket) (q : Option QueryClient) (n : Option (NatsClient Bucket))
      (c : Option CdpClient)
      → q ≡ none
      → n ≡ none
      → found_by_all k (
          elim q [ none ↦ [] | some client ↦ query_sources rt S Bucket order t h client req ]
          ++ elim c [
            | none ↦ []
            | some client ↦
                record {
                  name = "cdp_roles";
                  result = (source_cdp_roles rt S n client t req h.cdp_cache).result;
                }
                ∷ []
          ])
        ≡ []
  no_sources_but_cdp h (some q) n c e f = cc
  no_sources_but_cdp h none (some n) c e f = cc
  no_sources_but_cdp h none none none e f = refl
  no_sources_but_cdp h none none (some client) e f =
      rw (cdp_finds_nothing Bucket rt S k client t req h.cdp_cache) refl

  found-sources :
      (h : PersonaHandler rt S Bucket)
      → h.query_client ≡ none
      → h.nats_client ≡ none
      → found_by_all k (sources rt S Bucket order t h req) ≡ []
  unfolding sources
  found-sources h = no_sources_but_cdp h h.query_client h.nats_client h.cdp_client

Perm-nil : {A : Type 0} (xs ys : List A) → Permᴰ (xs ++ ys) [] → xs ≡ []
Perm-nil [] ys p = refl
Perm-nil (x ∷ xs) ys p = let e = PermD.length-eq p in cc

module _ {Bucket Key : Type 0} (p : Platform Bucket Key) (rt : Runtime) (S : KeyValue)
    (state : Bucket → S.State) (app : App Bucket)
    (alone : query_configured p.keys app.app_config ≡ false) where
  no_query : (build_handler p rt S state app).query_client ≡ none
  no_query =
      is_none (build_handler p rt S state app).query_client
        (query-build_handler p rt S state app ∙ alone)

  nats-with_query :
      (r : Result (Option QueryClient)) (h : PersonaHandler rt S Bucket)
      → is_client r ≡ false
      → h.nats_client ≡ none
      → (with_query p rt S state app r h).nats_client ≡ none
  unfolding with_query
  nats-with_query (ok (some client)) h c e = cc
  nats-with_query (ok none) h c e = e
  nats-with_query (err f) h c e = e

  no_nats : (build_handler p rt S state app).nats_client ≡ none
  unfolding build_handler with_handler_timeout
  no_nats =
      nats_added p rt S state app.app_config.cdp_enabled (new_cdp_client p rt S state app)
        (queried p rt S state app)
      ∙ nats-with_query (new_query_client p app.app_config) _
          (new_query_client-is_client p app.app_config ∙ alone) refl

  module _ (order : Matches → Matches) (t : Times) where
    -- Without a configured Query Service no reply has any detection, also when the CDP is enabled and
    -- answers: the handler has no client of NATS then, by which the CDP source resolves its slugs.
    pub GetPersona-detections :
        (body : Bytes) (resp : PersonaResponse)
        → GetPersona rt S Bucket order t (build_handler p rt S state app) body resp
        → (k : String) → detections_of k (elements resp.projects) ≡ []
    GetPersona-detections body resp (GetPersona.refused resp' e) k =
        ap (λ l. detections_of k (elements l)) (subst Guaranteed e (validate-Guaranteed rt body)).0
    GetPersona-detections body resp (GetPersona.collected req c resp' e run replies) k =
        let h = build_handler p rt S state app in
        let (rest, perm) =
          reply_within_sources (sources rt S Bucket order t h req) c run resp replies k in
        Perm-nil (detections_of k (elements resp.projects)) rest (
          subst (λ l. Permᴰ (detections_of k (elements resp.projects) ++ rest) l)
            (found-sources rt S Bucket order t req k h no_query no_nats) perm)
