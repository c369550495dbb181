-- ===== src/Sources/Found/Affiliated.antt =====
-- The tokens of the detections that the CDP source of internal/service/message_handler.go gives.
use mathlib.Core.Path.{subst}
use mathlib.Core.Option.{none-ne-some, some-injective}
use lfx_v2_persona_service.Prelude.{
  String, List, [], ◌∷◌, ◌==◌, Option, none, some, ◌≡◌, ◌≢◌, refl, All, if◌then◌else◌, ne_of_==,
  Bool-cases, inl, inr, starts_with, lookup,
}
use lfx_v2_persona_service.Cdp.{ProjectAffiliation}
use lfx_v2_persona_service.Model.Tokens.{IsFoundBy}
use lfx_v2_persona_service.Model.Contract.{cdp_roles-HasForm}
use lfx_v2_persona_service.Sources.Affiliations
use lfx_v2_persona_service.Sources.Found.{one-IsFoundBy, cdp_tokens}

affiliation-IsFoundBy :
    (aff : ProjectAffiliation) (uid : String)
    → uid ≢ ""
    → IsFoundBy cdp_tokens (Affiliations.affiliation_project aff uid)
unfolding Affiliations.affiliation_project Affiliations.roles_extra
affiliation-IsFoundBy aff uid ne =
    one-IsFoundBy cdp_tokens uid aff.project_slug _
      (refl, cdp_roles-HasForm (Affiliations.roles_extra aff) _ refl) ne

unless_empty_uid : (uid v : String) → (if uid == "" then none else some uid) ≡ some v → v ≢ ""
unless_empty_uid uid v e = elim (Bool-cases (uid == "")) [
  | inl f ↦ absurd (none-ne-some v (rw f at e))
  | inr f ↦ subst (λ u. u ≢ "") (some-injective uid v (rw f at e)) (ne_of_== uid "" f)
]

kept_uid-ne :
    (slugs : List (String × String)) (slug v : String)
    → Affiliations.kept_uid slugs slug ≡ some v
    → v ≢ ""
unfolding Affiliations.kept_uid
kept_uid-ne slugs slug v e = elim (Bool-cases (starts_with slug "nonlf_")) [
  | inl f ↦ absurd (none-ne-some v (rw f at e))
  | inr f ↦ go (lookup slug slugs) (rw f at e)
]
  where
    go :
        (o : Option String)
        → (elim o [ none ↦ none | some uid ↦ if uid == "" then none else some uid ]) ≡ some v
        → v ≢ ""
    go none e = absurd (none-ne-some v e)
    go (some uid) e = unless_empty_uid uid v e

pub affiliations_to_projects-IsFoundBy :
    (affs : List ProjectAffiliation) (slugs : List (String × String))
    → All (IsFoundBy cdp_tokens) (Affiliations.affiliations_to_projects affs slugs)
unfolding Affiliations.affiliations_to_projects
affiliations_to_projects-IsFoundBy [] slugs = tt
affiliations_to_projects-IsFoundBy (aff ∷ affs) slugs =
    go (Affiliations.kept_uid slugs aff.project_slug)
      (λ uid e. kept_uid-ne slugs aff.project_slug uid e)
      (affiliations_to_projects-IsFoundBy affs slugs)
  where
    go :
        (o : Option String)
        → ((uid : String) → o ≡ some uid → uid ≢ "")
        → All (IsFoundBy cdp_tokens) (Affiliations.affiliations_to_projects affs slugs)
        → All (IsFoundBy cdp_tokens) (elim o [
          | none ↦ Affiliations.affiliations_to_projects affs slugs
          | some uid ↦
              Affiliations.affiliation_project aff uid
              ∷ Affiliations.affiliations_to_projects affs slugs
        ])
    go none f t = t
    go (some uid) f t = (affiliation-IsFoundBy aff uid (f uid refl), t)
