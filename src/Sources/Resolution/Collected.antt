-- ===== src/Sources/Resolution/Collected.antt =====
-- The slugs of affiliations that are asked for.
use mathlib.Core.Path.{subst}
use lfx_v2_persona_service.Prelude.{
  String, Bool, true, false, not, ◌&&◌, ◌||◌, ◌==◌, eq_iff, eq_refl, Bool-cases, inl, inr, List, [],
  ◌∷◌, map, contains, ◌≡◌, refl, ◌∙◌, ap, if◌then◌else◌,
}
use lfx_v2_persona_service.Cdp.{ProjectAffiliation}
use lfx_v2_persona_service.Sources.Affiliations.{is_resolvable, unique_slugs}

abbrev pub slugs_of : List ProjectAffiliation → List String
slugs_of = map (λ a. a.project_slug)

contains-added :
    (b seen : Bool) (k s : String) (rest more : List String)
    → contains (if not b then rest else if seen then rest else k ∷ more) s
      ≡ (if b && not seen then k == s || contains more s else contains rest s)
contains-added true true k s rest more = refl
contains-added true false k s rest more = refl
contains-added false seen k s rest more = refl

-- One round of the collection, for any test of a slug.
added_round :
    (test seen : String → Bool) (k s : String) (tail : Bool)
    → (if test k && not (seen k)
        then k == s || (test s && (not (k == s || seen s) && tail))
        else test s && (not (seen s) && tail))
      ≡ (test s && (not (seen s) && (k == s || tail)))
added_round test seen k s tail = elim (Bool-cases (k == s)) [
  | inl e ↦
      subst
        (λ u.
          (if test k && not (seen k)
            then k == u || (test u && (not (k == u || seen u) && tail))
            else test u && (not (seen u) && tail))
          ≡ (test u && (not (seen u) && (k == u || tail))))
        ((eq_iff k s).0 e) (at_same (test k) (seen k) tail (k == k) (eq_refl k))
  | inr e ↦ rw e (elsewhere (test k && not (seen k)) (test s && (not (seen s) && tail)))
]
  where
    at_same :
        (t n d same : Bool)
        → same ≡ true
        → (if t && not n then same || (t && (not (same || n) && d)) else t && (not n && d))
          ≡ (t && (not n && (same || d)))
    at_same true true d same h = refl
    at_same true false d same h = rw h refl
    at_same false n d same h = refl

    elsewhere : (b x : Bool) → (if b then x else x) ≡ x
    elsewhere true x = refl
    elsewhere false x = refl

and_false : (b c : Bool) → false ≡ (b && (c && false))
and_false true true = refl
and_false true false = refl
and_false false c = refl

pub contains-unique_slugs :
    (seen : List String) (affs : List ProjectAffiliation) (s : String)
    → contains (unique_slugs seen affs) s
      ≡ (is_resolvable s && (not (contains seen s) && contains (slugs_of affs) s))
unfolding unique_slugs
contains-unique_slugs seen [] s = and_false (is_resolvable s) (not (contains seen s))
contains-unique_slugs seen (a ∷ affs) s =
    contains-added (is_resolvable a.project_slug) (contains seen a.project_slug) a.project_slug s
      (unique_slugs seen affs) (unique_slugs (a.project_slug ∷ seen) affs)
    ∙ ap
        (λ b.
          if is_resolvable a.project_slug && not (contains seen a.project_slug)
          then a.project_slug == s || b
          else contains (unique_slugs seen affs) s)
        (contains-unique_slugs (a.project_slug ∷ seen) affs s)
    ∙ ap
        (λ b.
          if is_resolvable a.project_slug && not (contains seen a.project_slug)
          then a.project_slug == s
            || (is_resolvable s
                && (not (a.project_slug == s || contains seen s) && contains (slugs_of affs) s))
          else b)
        (contains-unique_slugs seen affs s)
    ∙ added_round is_resolvable (contains seen) a.project_slug s (contains (slugs_of affs) s)
