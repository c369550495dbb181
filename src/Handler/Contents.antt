-- ===== src/Handler/Contents.antt =====
-- What any project that a source of `GetPersona` gives is like.
pub mod Replied
use mathlib.Core.Path.{subst}
use mathlib.Core.List.{foldl, Permᴰ}
use mathlib.Core.List.Permᴰ as PermD
use lfx_v2_persona_service.Prelude.{
  String, ◌<>◌, ◌==◌, eq_iff, Bool, true, false, Bool-cases, inl, inr, List, [], ◌∷◌, ◌++◌, Slice,
  Option, none, some, elements, contains, All, All-append, ◌≡◌, refl, arith, ap, sym, ◌∙◌, ok, err,
  Result, if◌then◌else◌,
}
use lfx_v2_persona_service.Runtime.{Runtime}
use lfx_v2_persona_service.Nats.{NatsClient}
use lfx_v2_persona_service.Model.{PersonaRequest, PersonaResponse, Project, Detection}
use lfx_v2_persona_service.Model.Source
use lfx_v2_persona_service.Model.Tokens.{IsFoundBy, IsToken, merge_projects-IsFoundBy}
use lfx_v2_persona_service.Query.Client.{QueryClient, search}
use lfx_v2_persona_service.Cdp.{ProjectAffiliation}
use lfx_v2_persona_service.Cdp.Client.{CdpClient}
use lfx_v2_persona_service.Cdp.Cache.{KeyValue, Cache}
use lfx_v2_persona_service.Sources.Legs.{unless_empty}
use lfx_v2_persona_service.Sources.MailingList
use lfx_v2_persona_service.Sources.Meetings
use lfx_v2_persona_service.Sources.Committee
use lfx_v2_persona_service.Sources.Director
use lfx_v2_persona_service.Sources.Access
use lfx_v2_persona_service.Sources.Access.{Matches}
use lfx_v2_persona_service.Sources.CdpRoles.{
  Times, Job, source_cdp_roles, member_step, affiliations_step, after_member, after_affiliations,
}
use lfx_v2_persona_service.Sources.Found.{
  GivesTokens, GivesTokens-bind, mailing_tokens, meeting_tokens, committee_tokens, director_tokens,
  access_tokens, cdp_tokens, mailing_list-GivesTokens, meetings-GivesTokens, committee-IsFoundBy,
  director_projects-IsFoundBy,
}
use lfx_v2_persona_service.Sources.Found.Affiliated.{affiliations_to_projects-IsFoundBy}
use lfx_v2_persona_service.Sources.Found.Permitted.{access-GivesTokens, All-perm}
use lfx_v2_persona_service.Handler.{SourceResult, PersonaHandler, query_sources, sources}
use lfx_v2_persona_service.Handler.Collector.{Collector, replied, start, Run, receive}
use lfx_v2_persona_service.Handler.Collector.Invariant.{Run-Explains}
use lfx_v2_persona_service.Handler.Collector.Replies.{elements_of_reply}

-- The detection sources of the contract.
abbrev pub all_tokens : List String
all_tokens =
    Source.board_member ∷ Source.committee_member ∷ Source.executive_director ∷ Source.writer
    ∷ Source.auditor ∷ Source.mailing_list ∷ Source.meeting_attendance ∷ Source.cdp_roles ∷ []

-- Every token of the first set is one of the second.
abbrev Within : List String → List String → Type 0
Within ts us = (t : String) → contains ts t ≡ true → contains us t ≡ true

module _ (ts us : List String) (within : Within ts us) where
  detections-Within : (ds : List Detection) → All (IsToken ts) ds → All (IsToken us) ds
  detections-Within [] h = tt
  detections-Within (d ∷ ds) ((h, form), hs) = ((within d.source h, form), detections-Within ds hs)

  projects-Within : (ps : List Project) → All (IsFoundBy ts) ps → All (IsFoundBy us) ps
  projects-Within [] h = tt
  projects-Within (p ∷ ps) (h, hs) = (
    record {
      has_uid = h.has_uid;
      has_detection = h.has_detection;
      has_tokens = detections-Within p.detections h.has_tokens;
    },
    projects-Within ps hs,
  )

  GivesTokens-Within : (r : Result (List Project)) → GivesTokens ts r → GivesTokens us r
  GivesTokens-Within (ok ps) h = projects-Within ps h
  GivesTokens-Within (err e) h = tt

-- A source that is skipped or gives tokens gives tokens.
skipped-GivesTokens :
    (ts : List String) (b : Bool) (r : Result (List Project))
    → GivesTokens ts r
    → GivesTokens ts (if b then ok [] else r)
skipped-GivesTokens ts true r h = tt
skipped-GivesTokens ts false r h = h

-- Each token of one source is a token of the contract.
contract_tokens :
    (ts : List String) → All (λ t. contains all_tokens t ≡ true) ts → Within ts all_tokens
contract_tokens [] h t e = cc
contract_tokens (u ∷ ts) (h, hs) t e = elim (Bool-cases (u == t)) [
  | inl f ↦ ground (arith, h, eq_iff u t, f)
  | inr f ↦ contract_tokens ts hs t (rw f at e)
]

module _ (rt : Runtime) (S : KeyValue) {Bucket : Type 0} (nats : Option (NatsClient Bucket)) where
  last_step :
      (js ks : List Job) (cache : Cache rt S) (r : Result (Slice ProjectAffiliation))
      → GivesTokens cdp_tokens
          (after_affiliations rt S nats js (record { result = r; cache = cache; jobs = ks })).result
  unfolding after_affiliations
  last_step js ks cache (err e) = tt
  last_step js ks cache (ok affs) = affiliations_to_projects-IsFoundBy (elements affs) _

  both_steps :
      (client : CdpClient) (t : Times) (js : List Job) (cache : Cache rt S) (r : Result String)
      → GivesTokens cdp_tokens
          (after_member rt S nats client t (record { result = r; cache = cache; jobs = js })).result
  unfolding after_member
  both_steps client t js cache (err e) = tt
  both_steps client t js cache (ok id) = elim (Bool-cases (id == "")) [
    | inl f ↦ rw f tt
    | inr f ↦
        rw f
          (let o = affiliations_step rt S client t id cache in last_step js o.jobs o.cache o.result)
  ]

  cdp_roles-GivesTokens :
      (client : CdpClient) (t : Times) (req : PersonaRequest) (cache : Cache rt S)
      → GivesTokens cdp_tokens (source_cdp_roles rt S nats client t req cache).result
  unfolding source_cdp_roles
  cdp_roles-GivesTokens client t req cache =
      let o = member_step rt S client t req cache in both_steps client t o.jobs o.cache o.result

  module _ (order : Matches → Matches) (same : (ms : Matches) → Permᴰ (order ms) ms)
      (client : QueryClient) (req : PersonaRequest) where
    director-GivesTokens :
        GivesTokens director_tokens (Director.source_executive_director rt nats client req)
    unfolding Director.source_executive_director
    director-GivesTokens = skipped-GivesTokens director_tokens (req.username == "") _ (
        GivesTokens-bind director_tokens (search rt client (Director.director_params req))
          (λ rs. Director.director_projects rt nats req (elements rs))
          (λ rs. director_projects-IsFoundBy rt nats req (elements rs)))

    writer_auditor-GivesTokens :
        GivesTokens access_tokens (Access.source_writer_auditor rt nats order client req)
    unfolding Access.source_writer_auditor
    writer_auditor-GivesTokens =
        skipped-GivesTokens access_tokens (req.username == "") _
          (access-GivesTokens rt nats order same req _ _)

-- A result whose projects have tokens of the contract.
abbrev pub Contributes : SourceResult → Type 0
Contributes r = GivesTokens all_tokens r.result

module _ (rt : Runtime) (S : KeyValue) (Bucket : Type 0) (order : Matches → Matches)
    (same : (ms : Matches) → Permᴰ (order ms) ms) (t : Times) (h : PersonaHandler rt S Bucket)
    (req : PersonaRequest) where
  of_query :
      (client : QueryClient) → All Contributes (query_sources rt S Bucket order t h client req)
  unfolding query_sources Committee.source_board_member_and_committee
      MailingList.source_mailing_list Meetings.source_meeting_attendance
  of_query client = (
    GivesTokens-Within committee_tokens all_tokens
        (contract_tokens committee_tokens (refl, (refl, tt)))
        (Committee.source_board_member_and_committee rt client req)
        (committee-IsFoundBy rt (Committee.query_committee_members rt client req true)
          (Committee.query_committee_members rt client req false)),
    (
      GivesTokens-Within director_tokens all_tokens (contract_tokens director_tokens (refl, tt))
          (Director.source_executive_director rt h.nats_client client req)
          (director-GivesTokens rt S h.nats_client order same client req),
      (
        GivesTokens-Within access_tokens all_tokens
            (contract_tokens access_tokens (refl, (refl, tt)))
            (Access.source_writer_auditor rt h.nats_client order client req)
            (writer_auditor-GivesTokens rt S h.nats_client order same client req),
        (
          GivesTokens-Within mailing_tokens all_tokens (contract_tokens mailing_tokens (refl, tt))
              (MailingList.source_mailing_list rt client req)
              (mailing_list-GivesTokens rt req (search rt client (MailingList.email_params req))
                (unless_empty req.username (search rt client (MailingList.username_params req)))),
          (
            GivesTokens-Within meeting_tokens all_tokens (contract_tokens meeting_tokens (refl, tt))
                (Meetings.source_meeting_attendance rt client req)
                (meetings-GivesTokens rt
                  (search rt client (Meetings.tag_params ("email:" <> req.email)))
                  (unless_empty req.username
                    (search rt client (Meetings.tag_params ("username:" <> req.username))))),
            tt,
          ),
        ),
      ),
    ),
  )

  from_query :
      (o : Option QueryClient)
      → All Contributes
          (elim o [ none ↦ [] | some client ↦ query_sources rt S Bucket order t h client req ])
  from_query none = tt
  from_query (some client) = of_query client

  from_cdp :
      (o : Option CdpClient)
      → All Contributes (elim o [
        | none ↦ []
        | some client ↦
            record {
              name = "cdp_roles";
              result = (source_cdp_roles rt S h.nats_client client t req h.cdp_cache).result;
            }
            ∷ []
      ])
  from_cdp none = tt
  from_cdp (some client) = (
    GivesTokens-Within cdp_tokens all_tokens (contract_tokens cdp_tokens (refl, tt))
        (source_cdp_roles rt S h.nats_client client t req h.cdp_cache).result
        (cdp_roles-GivesTokens rt S h.nats_client client t req h.cdp_cache),
    tt,
  )

  -- Every enabled source, whatever its clients answer, fails or gives projects with a UID and with at
  -- least one detection, all of tokens of the contract.
  pub sources-Contributes : All Contributes (sources rt S Bucket order t h req)
  unfolding sources
  sources-Contributes =
      All-append Contributes _ _ (from_query h.query_client) (from_cdp h.cdp_client)
