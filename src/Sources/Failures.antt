-- ===== src/Sources/Failures.antt =====
-- When a source fails: the error paths of the searches of each source together.
use lfx_v2_persona_service.Prelude.{
  String, Bool, true, false, not, ◌&&◌, ◌==◌, Bool-cases, inl, inr, Option, List, [], ◌<>◌, ◌≡◌,
  refl, ap, ◌∙◌, ◌<>◌, Result, ok, err, is_err, elements, ◌>>=◌, if◌then◌else◌,
}
use lfx_v2_persona_service.Runtime.{Runtime}
use lfx_v2_persona_service.Nats.{NatsClient}
use lfx_v2_persona_service.Model.{PersonaRequest, Project}
use lfx_v2_persona_service.Query.Client.{QueryClient, search}
use lfx_v2_persona_service.Query.{Resource}
use lfx_v2_persona_service.Sources.Legs.{Leg, both_legs, unless_empty}
use lfx_v2_persona_service.Sources.MailingList
use lfx_v2_persona_service.Sources.Meetings
use lfx_v2_persona_service.Sources.Committee
use lfx_v2_persona_service.Sources.Director
use lfx_v2_persona_service.Sources.Access

-- What follows the legs cannot fail.
both_legs-fails :
    {A : Type 0} (a b : Leg) (f : List Resource × List Resource → A)
    → is_err (both_legs a b >>= λ x. ok (f x)) ≡ (is_err a && is_err b)
unfolding both_legs
both_legs-fails (ok a) (ok b) f = refl
both_legs-fails (ok a) (err e) f = refl
both_legs-fails (err e) (ok b) f = refl
both_legs-fails (err e) (err d) f = refl

unless_empty-fails :
    (u : String) (leg : Leg) → is_err (unless_empty u leg) ≡ (not (u == "") && is_err leg)
unless_empty-fails u leg = elim (Bool-cases (u == "")) [ inl e ↦ rw e refl | inr e ↦ rw e refl ]

skipped-fails :
    (b : Bool) (r : Result (List Project)) → is_err (if b then ok [] else r) ≡ (not b && is_err r)
skipped-fails true r = refl
skipped-fails false r = refl

after-fails : {A B : Type 0} (r : Result A) (f : A → B) → is_err (r >>= λ x. ok (f x)) ≡ is_err r
after-fails (ok a) f = refl
after-fails (err e) f = refl

module _ {Bucket : Type 0} (rt : Runtime) (nats : Option (NatsClient Bucket))
    (order : Access.Matches → Access.Matches) (client : QueryClient) (req : PersonaRequest) where
  -- The mailing list and the meeting source fail just when their email search fails and the username
  -- is given and its search fails too; the writer and auditor source when the username is given and
  -- both searches fail; the executive director source when the username is given and its search
  -- fails; the committee source never.
  pub source_failures :
      (is_err (MailingList.source_mailing_list rt client req) ≡ (
        is_err (search rt client (MailingList.email_params req))
        && (not (req.username == "")
            && is_err (search rt client (MailingList.username_params req)))))
      × (is_err (Meetings.source_meeting_attendance rt client req) ≡ (
          is_err (search rt client (Meetings.tag_params ("email:" <> req.email)))
          && (not (req.username == "")
              && is_err (search rt client (Meetings.tag_params ("username:" <> req.username))))))
      × (is_err (Access.source_writer_auditor rt nats order client req) ≡ (
          not (req.username == "")
          && (is_err (search rt client (Access.writer_params req))
              && is_err (search rt client (Access.auditor_params req)))))
      × (is_err (Director.source_executive_director rt nats client req)
          ≡ (not (req.username == "") && is_err (search rt client (Director.director_params req))))
      × (is_err (Committee.source_board_member_and_committee rt client req) ≡ false)
  unfolding MailingList.source_mailing_list Meetings.source_meeting_attendance
      Access.source_writer_auditor Director.source_executive_director
      Committee.source_board_member_and_committee
  source_failures = (
    both_legs-fails _ _ _
        ∙ ap (λ b. is_err (search rt client (MailingList.email_params req)) && b)
            (unless_empty-fails req.username _),
    both_legs-fails _ _ _
        ∙ ap (λ b. is_err (search rt client (Meetings.tag_params ("email:" <> req.email))) && b)
            (unless_empty-fails req.username _),
    skipped-fails (req.username == "") _
        ∙ ap (λ b. not (req.username == "") && b) (both_legs-fails _ _ _),
    skipped-fails (req.username == "") _
        ∙ ap (λ b. not (req.username == "") && b)
            (after-fails (search rt client (Director.director_params req))
              (λ rs. Director.director_projects rt nats req (elements rs))),
    refl,
  )
