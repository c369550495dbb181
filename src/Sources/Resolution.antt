-- ===== src/Sources/Resolution.antt =====
-- Which UID each slug resolves to, and which affiliations become projects.
pub mod Collected
use lfx_v2_persona_service.Sources.Resolution.Collected.{slugs_of, contains-unique_slugs}
use mathlib.Core.Option.{none-ne-some}
use mathlib.Core.Path.{subst}
use lfx_v2_persona_service.Prelude.{
  String, Bool, true, false, not, ◌&&◌, ◌||◌, ◌==◌, eq_iff, eq_refl, Bool-cases, inl, inr, none,
  some, Option, List, [], ◌∷◌, map, contains, lookup, All, ◌≡◌, refl, sym, ◌∙◌, ap, if◌then◌else◌,
  starts_with, ◌≢◌, ◌↔◌, Result, ok, err, ne_of_==,
}
use lfx_v2_persona_service.Json.{Bytes, text}
use lfx_v2_persona_service.Runtime.{Runtime, as_string}
use lfx_v2_persona_service.Sources.Slugs.Replies.{IsUid, reply_text-IsUid}
use lfx_v2_persona_service.Nats.{NatsClient, request}
use lfx_v2_persona_service.Model.{Project}
use lfx_v2_persona_service.Cdp.{ProjectAffiliation}
use lfx_v2_persona_service.Sources.Affiliations.{
  is_resolvable, unique_slugs, kept_uid, affiliation_project, affiliations_to_projects,
  resolve_slug, resolve_all, resolve_slugs_to_uids,
}

if_none : (b : Bool) (o : Option String) → none ≡ o → (if b then o else none) ≡ o
if_none true o e = refl
if_none false o e = e

-- The tests of the resolution, apart.
guarded :
    (b : Bool) (o : Option String) (uid : String)
    → (if b then o else none) ≡ some uid
    → (b ≡ true) × (o ≡ some uid)
guarded true o uid h = (refl, h)
guarded false o uid h = cc

both : (a b : Bool) → (a && b) ≡ true → (a ≡ true) × (b ≡ true)
both true b h = (refl, h)
both false b h = cc

refuted : (b : Bool) → not b ≡ true → b ≡ false
refuted true h = cc
refuted false h = refl

is_resolvable_iff :
    (s : String) → (is_resolvable s ≡ true) ↔ ((s ≢ "") × (starts_with s "nonlf_" ≡ false))
unfolding is_resolvable
is_resolvable_iff s = elim (Bool-cases (s == "")) [
  | inl e ↦ (λ h. let refusal = rw e at h in cc, λ h. absurd (h.0 ((eq_iff s "").0 e)))
  | inr e ↦
      (λ h. (ne_of_== s "" e, refuted (starts_with s "nonlf_") (rw e at h)), λ h. rw (e, h.1) refl)
]

module _ {Bucket : Type 0} (rt : Runtime) (c : NatsClient Bucket) where
  lookup-resolve_all :
      (slugs : List String) (s : String)
      → lookup s (resolve_all rt c slugs) ≡ (if contains slugs s then resolve_slug rt c s else none)
  unfolding resolve_all
  lookup-resolve_all [] s = refl
  lookup-resolve_all (k ∷ slugs) s = first (resolve_slug rt c k) refl (lookup-resolve_all slugs s)
    where
      first :
          (o : Option String)
          → resolve_slug rt c k ≡ o
          → lookup s (resolve_all rt c slugs)
            ≡ (if contains slugs s then resolve_slug rt c s else none)
          → lookup s (elim o [
            | none ↦ resolve_all rt c slugs
            | some uid ↦ (k, uid) ∷ resolve_all rt c slugs
          ])
            ≡ (if k == s || contains slugs s then resolve_slug rt c s else none)
      first none e ih = elim (Bool-cases (k == s)) [
        | inl h ↦ rw h (
            ih
            ∙ if_none (contains slugs s) (resolve_slug rt c s)
                (sym e ∙ ap (resolve_slug rt c) ((eq_iff k s).0 h)))
        | inr h ↦ rw h ih
      ]
      first (some uid) e ih = elim (Bool-cases (k == s)) [
        | inl h ↦ rw h (sym e ∙ ap (resolve_slug rt c) ((eq_iff k s).0 h))
        | inr h ↦ rw h ih
      ]

  lookup-by_answers :
      (affs : List ProjectAffiliation) (s : String)
      → lookup s (resolve_slugs_to_uids rt (some c) affs)
        ≡ (if is_resolvable s && contains (slugs_of affs) s then resolve_slug rt c s else none)
  unfolding resolve_slugs_to_uids
  lookup-by_answers affs s =
      lookup-resolve_all (unique_slugs [] affs) s
      ∙ ap (λ b. if b then resolve_slug rt c s else none) (contains-unique_slugs [] affs s)

  -- A slug of an affiliation that is not empty and not of a CDP-only project, and a reply of the project
  -- service to it: its text without the space around it is the UID, which is not empty, and it does not
  -- begin with a brace.
  abbrev pub IsResolution : List ProjectAffiliation → String → String → Type 0
  IsResolution affs slug uid =
      (contains (slugs_of affs) slug ≡ true)
      × (slug ≢ "")
      × (starts_with slug "nonlf_" ≡ false)
      × ((resp : Bytes) × (request c "lfx.projects-api.slug_to_uid" (text slug) ≡ ok resp)
          × IsUid (as_string rt resp) uid)

  reply_with :
      (slug uid : String) (r : Result Bytes)
      → request c "lfx.projects-api.slug_to_uid" (text slug) ≡ r
      → resolve_slug rt c slug ≡ some uid
      → (resp : Bytes) × (r ≡ ok resp) × IsUid (as_string rt resp) uid
  unfolding resolve_slug
  reply_with slug uid (err f) e h = let refusal = rw (resolve_slug, e) at h in cc
  reply_with slug uid (ok resp) e h =
      (resp, refl, (reply_text-IsUid rt resp uid).0 (rw (resolve_slug, e) at h))

  resolve_slug-replied :
      (slug uid : String) (resp : Bytes)
      → request c "lfx.projects-api.slug_to_uid" (text slug) ≡ ok resp
      → IsUid (as_string rt resp) uid
      → resolve_slug rt c slug ≡ some uid
  unfolding resolve_slug
  resolve_slug-replied slug uid resp e h = rw (resolve_slug, e) ((reply_text-IsUid rt resp uid).1 h)

  -- The map of the resolution has a UID for a slug exactly when the slug is one of an affiliation, is not
  -- empty and does not begin with nonlf_, and the project service replies to it with a text that has the
  -- UID within white space, is not blank and does not begin with a brace, as an error does.
  pub lookup-resolve_slugs_to_uids :
      (affs : List ProjectAffiliation) (slug uid : String)
      → (lookup slug (resolve_slugs_to_uids rt (some c) affs) ≡ some uid)
        ↔ IsResolution affs slug uid
  lookup-resolve_slugs_to_uids affs slug uid = (there, back)
    where
      there :
          lookup slug (resolve_slugs_to_uids rt (some c) affs) ≡ some uid
          → IsResolution affs slug uid
      there h =
          let (test, answer) = guarded _ _ uid (sym (lookup-by_answers affs slug) ∙ h) in
          let (resolvable, listed) = both _ _ test in
          let (full, lf) = (is_resolvable_iff slug).0 resolvable in
          (listed, full, lf, reply_with slug uid _ refl answer)

      back :
          IsResolution affs slug uid
          → lookup slug (resolve_slugs_to_uids rt (some c) affs) ≡ some uid
      back (listed, full, lf, (resp, e, h)) =
          lookup-by_answers affs slug
          ∙ rw ((is_resolvable_iff slug).1 (full, lf), listed)
              (resolve_slug-replied slug uid resp e h)

-- A project of the conversion has a slug that is not of a CDP-only project, and the UID of that slug.
abbrev pub IsResolvedBy : List (String × String) → Project → Type 0
IsResolvedBy slugs p =
    (starts_with p.project_slug "nonlf_" ≡ false)
    × (lookup p.project_slug slugs ≡ some p.project_uid)

kept_lookup :
    (o : Option String) (v : String)
    → (elim o [ none ↦ none | some uid ↦ if uid == "" then none else some uid ]) ≡ some v
    → o ≡ some v
kept_lookup none v e = absurd (none-ne-some v e)
kept_lookup (some uid) v e = elim (Bool-cases (uid == "")) [
  | inl f ↦ absurd (none-ne-some v (rw f at e))
  | inr f ↦ rw f at e
]

kept_uid-lookup :
    (slugs : List (String × String)) (slug v : String)
    → kept_uid slugs slug ≡ some v
    → (starts_with slug "nonlf_" ≡ false) × (lookup slug slugs ≡ some v)
unfolding kept_uid
kept_uid-lookup slugs slug v e = elim (Bool-cases (starts_with slug "nonlf_")) [
  | inl f ↦ absurd (none-ne-some v (rw f at e))
  | inr f ↦ (f, kept_lookup (lookup slug slugs) v (rw f at e))
]

-- Every project made of affiliations has the UID that its slug resolved to, and none is of a CDP-only
-- project, whose slugs begin with nonlf_.
pub affiliations_to_projects-IsResolvedBy :
    (affs : List ProjectAffiliation) (slugs : List (String × String))
    → All (IsResolvedBy slugs) (affiliations_to_projects affs slugs)
unfolding affiliations_to_projects affiliation_project
affiliations_to_projects-IsResolvedBy [] slugs = tt
affiliations_to_projects-IsResolvedBy (aff ∷ affs) slugs =
    added (kept_uid slugs aff.project_slug) (λ uid e. kept_uid-lookup slugs aff.project_slug uid e)
      (affiliations_to_projects-IsResolvedBy affs slugs)
  where
    added :
        (o : Option String)
        → ((uid : String)
            → o ≡ some uid
            → (starts_with aff.project_slug "nonlf_" ≡ false)
              × (lookup aff.project_slug slugs ≡ some uid))
        → All (IsResolvedBy slugs) (affiliations_to_projects affs slugs)
        → All (IsResolvedBy slugs) (elim o [
          | none ↦ affiliations_to_projects affs slugs
          | some uid ↦ affiliation_project aff uid ∷ affiliations_to_projects affs slugs
        ])
    added none f t = t
    added (some uid) f t = (f uid refl, t)
