-- ===== src/Model/Successive.antt =====
-- Merges one after the other, as the collecting loop makes them.
use mathlib.Core.Path.{subst}
use mathlib.Core.List.{foldl, foldl-append, append_assoc, append-nil}
use lfx_v2_persona_service.Prelude.{
  String, false, ◌==◌, eq_iff, Bool-cases, inl, inr, List, [], ◌∷◌, ◌++◌, contains, contains-append,
  IsDistinct, ◌≡◌, refl, sym, ap, ◌∙◌, arith,
}
use lfx_v2_persona_service.Model.{Project, merge_projects}
use lfx_v2_persona_service.Model.Merge.{absorb, collapse, uids, merge_projects-collapse}
use lfx_v2_persona_service.Model.Detections.{merge_projects-IsDistinct}

uids-append : (l m : List Project) → uids (l ++ m) ≡ uids l ++ uids m
uids-append [] m = refl
uids-append (p ∷ l) m = ap (λ x. p.project_uid ∷ x) (uids-append l m)

contains-IsDistinct :
    (xs : List String) (y : String) (ys : List String)
    → IsDistinct (xs ++ y ∷ ys)
    → contains xs y ≡ false
contains-IsDistinct [] y ys h = refl
contains-IsDistinct (x ∷ xs) y ys h = ground (
  arith,
  h.0,
  contains-append xs (y ∷ ys) x,
  contains-IsDistinct xs y ys h.1,
  eq_iff x y,
  eq_iff y x,
)

absorb_new :
    (p : Project) (l : List Project)
    → contains (uids l) p.project_uid ≡ false
    → absorb p l ≡ l ++ p ∷ []
unfolding absorb
absorb_new p [] h = refl
absorb_new p (q ∷ l) h = elim (Bool-cases (q.project_uid == p.project_uid)) [
  | inl e ↦ ground (arith, h, e)
  | inr e ↦ rw e (ap (λ x. q ∷ x) (absorb_new p l (ground (arith, h, e))))
]

foldl-absorb_distinct :
    (acc l : List Project)
    → IsDistinct (uids (acc ++ l))
    → foldl (λ l p. absorb p l) acc l ≡ acc ++ l
foldl-absorb_distinct acc [] h = sym (append-nil acc)
foldl-absorb_distinct acc (p ∷ l) h =
    ap (λ a. foldl (λ l p. absorb p l) a l)
      (absorb_new p acc (
        contains-IsDistinct (uids acc) p.project_uid (uids l)
          (subst IsDistinct (uids-append acc (p ∷ l)) h)))
    ∙ foldl-absorb_distinct (acc ++ p ∷ []) l
        (subst (λ x. IsDistinct (uids x)) (sym (append_assoc acc (p ∷ []) l)) h)
    ∙ append_assoc acc (p ∷ []) l

-- Merging a list after another is merging their concatenation: results that are received one after
-- the other give what all their projects in a row would give at once.
pub merge_projects-append :
    (dst src more : List Project)
    → merge_projects (merge_projects dst src) more ≡ merge_projects dst (src ++ more)
unfolding collapse
merge_projects-append dst src more =
    let merged = merge_projects dst src in
    merge_projects-collapse merged more
    ∙ foldl-append (λ l p. absorb p l) [] merged more
    ∙ ap (λ a. foldl (λ l p. absorb p l) a more)
        (foldl-absorb_distinct [] merged (merge_projects-IsDistinct dst src)
          ∙ merge_projects-collapse dst src)
    ∙ sym (foldl-append (λ l p. absorb p l) [] (dst ++ src) more)
    ∙ ap collapse (append_assoc dst src more)
    ∙ sym (merge_projects-collapse dst (src ++ more))
