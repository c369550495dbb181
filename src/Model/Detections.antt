-- ===== src/Model/Detections.antt =====
-- What `MergeProjects` of internal/domain/model/persona.go does to the detections, UIDs and slugs.
use mathlib.Core.List.{foldl, append-nil, append_assoc}
use lfx_v2_persona_service.Prelude.{
  String, false, Option, none, some, List, [], ◌∷◌, ◌++◌, arith, ◌==◌, eq_iff, if◌then◌else◌, ◌≡◌,
  refl, ap, sym, ◌∙◌, contains, contains-append, IsDistinct,
}
use lfx_v2_persona_service.Model.{Project, Detection, merge_projects}
use lfx_v2_persona_service.Model.Merge.{absorb, collapse, uids, merge_projects-collapse}

-- The detections that a list of projects has for a UID, over all its entries.
abbrev pub detections_of : String → List Project → List Detection
detections_of k [] = []
detections_of k (p ∷ l) =
    if p.project_uid == k then p.detections ++ detections_of k l else detections_of k l

-- The slug of the first entry of a UID.
abbrev pub slug_of : String → List Project → Option String
slug_of k [] = none
slug_of k (p ∷ l) = if p.project_uid == k then some p.project_slug else slug_of k l

-- The texts of a list at their first occurrences, after those already seen.
abbrev pub insert_last : List String → String → List String
insert_last seen k = if contains seen k then seen else seen ++ k ∷ []

abbrev pub first_occurrences : List String → List String
first_occurrences = foldl insert_last []

pub detections_of-append :
    (k : String) (l m : List Project)
    → detections_of k (l ++ m) ≡ detections_of k l ++ detections_of k m
detections_of-append k [] m = refl
detections_of-append k (p ∷ l) m = ground (
  arith,
  detections_of-append k l m,
  append_assoc p.detections (detections_of k l) (detections_of k m),
)

slug_of-append :
    (k : String) (l m : List Project)
    → slug_of k (l ++ m) ≡ elim (slug_of k l) [ some s ↦ some s | none ↦ slug_of k m ]
slug_of-append k [] m = refl
slug_of-append k (p ∷ l) m = ground (arith, slug_of-append k l m)

-- The detections of the entries behind the first of a UID are appended there, so for one UID the
-- order holds only in a list that has it once.
detections_of-absent :
    (k : String) (l : List Project) → contains (uids l) k ≡ false → detections_of k l ≡ []
detections_of-absent k [] h = refl
detections_of-absent k (p ∷ l) h = ground (arith, detections_of-absent k l)

uids-absorb :
    (p : Project) (l : List Project) → uids (absorb p l) ≡ insert_last (uids l) p.project_uid
unfolding absorb
uids-absorb p [] = refl
uids-absorb p (q ∷ l) = ground (arith, uids-absorb p l)

IsDistinct-insert_last :
    (seen : List String) (k : String) → IsDistinct seen → IsDistinct (insert_last seen k)
IsDistinct-insert_last [] k h = (refl, tt)
IsDistinct-insert_last (x ∷ seen) k h = ground (
  arith,
  IsDistinct-insert_last seen k h.1,
  contains-append seen (k ∷ []) x,
  eq_iff x k,
  eq_iff k x,
)

absorb-IsDistinct :
    (p : Project) (l : List Project) → IsDistinct (uids l) → IsDistinct (uids (absorb p l))
absorb-IsDistinct p l h = rw (uids-absorb p l) (IsDistinct-insert_last (uids l) p.project_uid h)

detections_of-absorb :
    (k : String) (p : Project) (l : List Project)
    → IsDistinct (uids l)
    → detections_of k (absorb p l) ≡ detections_of k l ++ detections_of k (p ∷ [])
unfolding absorb
detections_of-absorb k p [] d = refl
detections_of-absorb k p (q ∷ l) d = ground (
  arith,
  detections_of-absorb k p l d.1,
  eq_iff q.project_uid p.project_uid,
  eq_iff q.project_uid k,
  eq_iff p.project_uid k,
  detections_of-absent k l,
  append-nil p.detections,
  append-nil q.detections,
  append-nil (q.detections ++ p.detections),
  append-nil (detections_of k l),
  append_assoc q.detections (detections_of k l) (p.detections ++ []),
  append_assoc q.detections (detections_of k l) p.detections,
)

slug_of-absorb :
    (k : String) (p : Project) (l : List Project) → slug_of k (absorb p l) ≡ slug_of k (l ++ p ∷ [])
unfolding absorb
slug_of-absorb k p [] = refl
slug_of-absorb k p (q ∷ l) = ground (
  arith,
  slug_of-absorb k p l,
  eq_iff q.project_uid p.project_uid,
  eq_iff q.project_uid k,
  eq_iff p.project_uid k,
  slug_of-append k l (p ∷ []),
)

abbrev absorb_all : List Project → List Project → List Project
absorb_all = foldl (λ l p. absorb p l)

absorb_all-IsDistinct :
    (l ps : List Project) → IsDistinct (uids l) → IsDistinct (uids (absorb_all l ps))
absorb_all-IsDistinct l [] d = d
absorb_all-IsDistinct l (p ∷ ps) d = absorb_all-IsDistinct (absorb p l) ps (absorb-IsDistinct p l d)

uids-absorb_all :
    (l ps : List Project) → uids (absorb_all l ps) ≡ foldl insert_last (uids l) (uids ps)
uids-absorb_all l [] = refl
uids-absorb_all l (p ∷ ps) =
    uids-absorb_all (absorb p l) ps ∙ ap (λ s. foldl insert_last s (uids ps)) (uids-absorb p l)

detections_of-absorb_all :
    (k : String) (l ps : List Project)
    → IsDistinct (uids l)
    → detections_of k (absorb_all l ps) ≡ detections_of k l ++ detections_of k ps
detections_of-absorb_all k l [] d = sym (append-nil (detections_of k l))
detections_of-absorb_all k l (p ∷ ps) d =
    detections_of-absorb_all k (absorb p l) ps (absorb-IsDistinct p l d)
    ∙ ap (λ ds. ds ++ detections_of k ps) (detections_of-absorb k p l d)
    ∙ append_assoc (detections_of k l) (detections_of k (p ∷ [])) (detections_of k ps)
    ∙ ap (λ ds. detections_of k l ++ ds) (sym (detections_of-append k (p ∷ []) ps))

slug_of-absorb_all :
    (k : String) (l ps : List Project) → slug_of k (absorb_all l ps) ≡ slug_of k (l ++ ps)
slug_of-absorb_all k l [] = ap (slug_of k) (sym (append-nil l))
slug_of-absorb_all k l (p ∷ ps) =
    slug_of-absorb_all k (absorb p l) ps
    ∙ ground (
      arith,
      slug_of-append k (absorb p l) ps,
      slug_of-absorb k p l,
      slug_of-append k l (p ∷ []),
      slug_of-append k l (p ∷ ps),
    )

-- The merge lists no UID twice.
pub merge_projects-IsDistinct :
    (dst src : List Project) → IsDistinct (uids (merge_projects dst src))
unfolding collapse
merge_projects-IsDistinct dst src =
    rw merge_projects-collapse (absorb_all-IsDistinct [] (dst ++ src) tt)

-- Each UID keeps all its detections, those of `dst` before those of `src`.
pub detections_of-merge_projects :
    (k : String) (dst src : List Project)
    → detections_of k (merge_projects dst src) ≡ detections_of k dst ++ detections_of k src
unfolding collapse
detections_of-merge_projects k dst src =
    rw merge_projects-collapse (detections_of-absorb_all k [] (dst ++ src) tt)
    ∙ detections_of-append k dst src

uids-merge_projects :
    (dst src : List Project) → uids (merge_projects dst src) ≡ first_occurrences (uids (dst ++ src))
unfolding collapse
uids-merge_projects dst src = rw merge_projects-collapse (uids-absorb_all [] (dst ++ src))

slug_of-merge_projects :
    (k : String) (dst src : List Project)
    → slug_of k (merge_projects dst src) ≡ slug_of k (dst ++ src)
unfolding collapse
slug_of-merge_projects k dst src = rw merge_projects-collapse (slug_of-absorb_all k [] (dst ++ src))

-- The UIDs of a merge stand, each once, in the order in which `dst` and then `src` name them first, and
-- each project has the slug that `dst` or else `src` gives its UID first.
pub merge_projects_entries :
    (k : String) (dst src : List Project)
    → (uids (merge_projects dst src) ≡ first_occurrences (uids (dst ++ src)))
      × (slug_of k (merge_projects dst src) ≡ slug_of k (dst ++ src))
merge_projects_entries k dst src = (uids-merge_projects dst src, slug_of-merge_projects k dst src)
