-- ===== src/Sources/Found.antt =====
-- The tokens of the detections that each source of internal/service gives.
pub mod Affiliated
pub mod Permitted
use mathlib.Core.Path.{subst}
use mathlib.Core.Option.{none-ne-some, some-injective}
use lfx_v2_persona_service.Prelude.{
  String, true, false, Bool, List, [], ◌∷◌, ◌==◌, Option, none, some, ◌≡◌, ◌≢◌, refl, All,
  if◌then◌else◌, ne_of_==, Bool-cases, inl, inr, Result, ok, err, ◌>>=◌, value_or, starts_with,
  lookup,
}
use lfx_v2_persona_service.Cdp.{ProjectAffiliation}
use lfx_v2_persona_service.Runtime.{Runtime}
use lfx_v2_persona_service.Nats.{NatsClient}
use lfx_v2_persona_service.Model.{Project, Detection, PersonaRequest, merge_projects}
use lfx_v2_persona_service.Model.Source
use lfx_v2_persona_service.Model.Tokens.{IsFoundBy, IsToken, merge_projects-IsFoundBy}
use lfx_v2_persona_service.Model.Contract.{
  board_member-HasForm, committee_member-HasForm, cdp_roles-HasForm,
}
use lfx_v2_persona_service.Model.Wire.{
  encode_detection, encode_board_member_extra, encode_committee_member_extra,
}
use lfx_v2_persona_service.Query.{Resource}
use lfx_v2_persona_service.Query.Tables.{
  decode_groups_io_member, empty_groups_io_member, decode_meeting_participant,
  empty_meeting_participant, decode_committee_member, empty_committee_member,
}
use lfx_v2_persona_service.Sources.Legs.{unless_no_uid}
use lfx_v2_persona_service.Sources.Conversion.{All-convert}
use lfx_v2_persona_service.Text.{equal_fold}
use lfx_v2_persona_service.Sources.Legs.{Leg, both_legs, merge_legs}
use lfx_v2_persona_service.Sources.MailingList
use lfx_v2_persona_service.Sources.Meetings
use lfx_v2_persona_service.Sources.Committee
use lfx_v2_persona_service.Sources.Director
use lfx_v2_persona_service.Sources.Slugs
use lfx_v2_persona_service.Sources.Affiliations

-- A project made for a UID is kept only if that is not empty.
pub unless_no_uid-kept :
    (P : Project → Type 0) (uid : String) (q p : Project)
    → (uid ≢ "" → P q)
    → unless_no_uid uid q ≡ some p
    → P p
unless_no_uid-kept P uid q p make e = elim (Bool-cases (uid == "")) [
  | inl f ↦ absurd (none-ne-some p (rw f at e))
  | inr f ↦ subst P (some-injective q p (rw f at e)) (make (ne_of_== uid "" f))
]

cons-ne-nil : (d : Detection) → d ∷ [] ≢ []
cons-ne-nil d e = cc

-- A result whose projects, if any, have tokens of this set.
abbrev pub GivesTokens : List String → Result (List Project) → Type 0
GivesTokens tokens (err e) = Unit
GivesTokens tokens (ok ps) = All (IsFoundBy tokens) ps

module _ (tokens : List String) (uid slug : String) where
  pub one-IsFoundBy :
      (d : Detection)
      → IsToken tokens d
      → uid ≢ ""
      → IsFoundBy tokens (record { project_uid = uid; project_slug = slug; detections = d ∷ [] })
  one-IsFoundBy d t h = record { has_uid = h; has_detection = cons-ne-nil d; has_tokens = (t, tt) }

  -- What a conversion makes of a record with this UID and one detection.
  one_kept :
      (d : Detection) (p : Project)
      → IsToken tokens d
      → unless_no_uid uid (record { project_uid = uid; project_slug = slug; detections = d ∷ [] })
        ≡ some p
      → IsFoundBy tokens p
  one_kept d p t = unless_no_uid-kept (IsFoundBy tokens) uid _ p (one-IsFoundBy d t)

pub GivesTokens-bind :
    {A : Type 0} (tokens : List String) (r : Result A) (f : A → List Project)
    → ((a : A) → All (IsFoundBy tokens) (f a))
    → GivesTokens tokens (r >>= λ a. ok (f a))
GivesTokens-bind tokens (ok a) f h = h a
GivesTokens-bind tokens (err e) f h = tt

abbrev pub mailing_tokens : List String
mailing_tokens = Source.mailing_list ∷ []

abbrev pub meeting_tokens : List String
meeting_tokens = Source.meeting_attendance ∷ []

abbrev pub committee_tokens : List String
committee_tokens = Source.board_member ∷ Source.committee_member ∷ []

abbrev pub director_tokens : List String
director_tokens = Source.executive_director ∷ []

abbrev pub access_tokens : List String
access_tokens = Source.writer ∷ Source.auditor ∷ []

abbrev pub cdp_tokens : List String
cdp_tokens = Source.cdp_roles ∷ []

module _ (rt : Runtime) where
  mailing_projects-IsFoundBy :
      (rs : List Resource) → All (IsFoundBy mailing_tokens) (MailingList.mailing_projects rt rs)
  unfolding MailingList.mailing_projects MailingList.mailing_project encode_detection
  mailing_projects-IsFoundBy =
      All-convert (decode_groups_io_member rt) empty_groups_io_member MailingList.mailing_project
        (IsFoundBy mailing_tokens)
        (λ r m p.
          one_kept mailing_tokens m.project_uid m.project_slug
            (record { source = Source.mailing_list; extra = none }) p (refl, refl))

  meeting_projects-IsFoundBy :
      (rs : List Resource) → All (IsFoundBy meeting_tokens) (Meetings.meeting_projects rt rs)
  unfolding Meetings.meeting_projects Meetings.meeting_project encode_detection
  meeting_projects-IsFoundBy =
      All-convert (decode_meeting_participant rt) empty_meeting_participant Meetings.meeting_project
        (IsFoundBy meeting_tokens)
        (λ r m p.
          one_kept meeting_tokens m.project_uid m.project_slug
            (record { source = Source.meeting_attendance; extra = none }) p (refl, refl))

  board_member_detections-IsFoundBy :
      (rs : List Resource)
      → All (IsFoundBy committee_tokens) (Committee.board_member_detections rt rs)
  unfolding Committee.board_member_detections Committee.board_project
  board_member_detections-IsFoundBy =
      All-convert (decode_committee_member rt) empty_committee_member Committee.board_project
        (IsFoundBy committee_tokens)
        (λ r m p.
          one_kept committee_tokens m.project_uid m.project_slug
            (record {
              source = Source.board_member;
              extra = some (encode_board_member_extra (Committee.board_member_extra r m));
            })
            p (refl, board_member-HasForm (Committee.board_member_extra r m)))

  committee_member_detections-IsFoundBy :
      (rs : List Resource)
      → All (IsFoundBy committee_tokens) (Committee.committee_member_detections rt rs)
  unfolding Committee.committee_member_detections Committee.committee_project
  committee_member_detections-IsFoundBy =
      All-convert (decode_committee_member rt) empty_committee_member Committee.committee_project
        (IsFoundBy committee_tokens)
        (λ r m p.
          one_kept committee_tokens m.project_uid m.project_slug
            (record {
              source = Source.committee_member;
              extra = some (encode_committee_member_extra (Committee.committee_member_extra r m));
            })
            p (refl, committee_member-HasForm (Committee.committee_member_extra r m)))

  -- The results of the legs, whatever they are.
  pub mailing_list-GivesTokens :
      (req : PersonaRequest) (email username : Leg)
      → GivesTokens mailing_tokens (MailingList.from_legs rt req email username)
  unfolding MailingList.from_legs
  mailing_list-GivesTokens req email username =
      GivesTokens-bind mailing_tokens (both_legs email username)
        (λ x. MailingList.mailing_projects rt (merge_legs (MailingList.is_member rt req) x.0 x.1))
        (λ x. mailing_projects-IsFoundBy (merge_legs (MailingList.is_member rt req) x.0 x.1))

  pub meetings-GivesTokens :
      (email username : Leg) → GivesTokens meeting_tokens (Meetings.from_legs rt email username)
  unfolding Meetings.from_legs
  meetings-GivesTokens email username =
      GivesTokens-bind meeting_tokens (both_legs email username)
        (λ x. Meetings.meeting_projects rt (merge_legs (λ _. true) x.0 x.1))
        (λ x. meeting_projects-IsFoundBy (merge_legs (λ _. true) x.0 x.1))

  pub committee-IsFoundBy :
      (board all : Result (List Resource))
      → All (IsFoundBy committee_tokens) (Committee.from_branches rt board all)
  unfolding Committee.from_branches
  committee-IsFoundBy board all =
      go (Committee.deduplicate_resources (value_or [] board ∷ value_or [] all ∷ []))
    where
      go :
          (members : List Resource)
          → All (IsFoundBy committee_tokens) (elim members [
            | [] ↦ []
            | r ∷ rs ↦
                merge_projects
                  (Committee.board_member_detections rt (value_or [] board))
                  (Committee.committee_member_detections rt (r ∷ rs))
          ])
      go [] = tt
      go (r ∷ rs) =
          merge_projects-IsFoundBy committee_tokens
            (Committee.board_member_detections rt (value_or [] board))
            (Committee.committee_member_detections rt (r ∷ rs))
            (board_member_detections-IsFoundBy (value_or [] board))
            (committee_member_detections-IsFoundBy (r ∷ rs))

module _ {Bucket : Type 0} (rt : Runtime) (nats : Option (NatsClient Bucket)) where
  pub director_projects-IsFoundBy :
      (req : PersonaRequest) (rs : List Resource)
      → All (IsFoundBy director_tokens) (Director.director_projects rt nats req rs)
  unfolding Director.director_projects Director.director_project encode_detection
  director_projects-IsFoundBy req =
      All-convert (Director.decode_settings rt) Director.empty_settings
        (Director.director_project rt nats req) (IsFoundBy director_tokens)
        (λ r m p e. director_kept m p (equal_fold rt m.executive_director.username req.username) e)
    where
      director_kept :
          (m : Director.EdSettingsData) (p : Project) (b : Bool)
          → (if b
              then unless_no_uid m.uid (record {
                project_uid = m.uid;
                project_slug = Slugs.resolve_project_slug rt nats m.uid;
                detections = record { source = Source.executive_director; extra = none } ∷ [];
              })
              else none)
            ≡ some p
          → IsFoundBy director_tokens p
      director_kept m p true e =
          one_kept director_tokens m.uid (Slugs.resolve_project_slug rt nats m.uid)
            (record { source = Source.executive_director; extra = none }) p (refl, refl) e
      director_kept m p false e = absurd (none-ne-some p e)
