-- ===== src/Model/Merge.antt =====
-- `MergeProjects` of internal/domain/model/persona.go beside a merge without an index.
use mathlib.Core.List.{foldl, foldl-append}
use lfx_v2_persona_service.Prelude.{
  ℕ, zero, suc, String, Option, none, some, List, [], ◌∷◌, ◌++◌, map, arith, ◌==◌, eq_iff,
  if◌then◌else◌, ◌≡◌, refl, ap, sym, ◌∙◌,
}
use lfx_v2_persona_service.Prelude.{length, lookup}
use lfx_v2_persona_service.Model.{
  Project, Detection, Index, append_detections, merge_at, merge_step, merge_projects,
}

-- A project joins the entry of its UID, or comes last: the merge without its index.
unfoldable pub absorb : Project → List Project → List Project
absorb p [] = p ∷ []
absorb p (q ∷ l) =
    if q.project_uid == p.project_uid
    then record q { detections = q.detections ++ p.detections } ∷ l
    else q ∷ absorb p l

-- The reference: each project is absorbed in turn.
unfoldable pub collapse : List Project → List Project
unfolding absorb
collapse = foldl (λ l p. absorb p l) []

abbrev pub uids : List Project → List String
uids = map (λ p. p.project_uid)

-- The position of a UID.
position : String → List Project → Option ℕ
position k [] = none
position k (q ∷ l) =
    let rest = position k l in
    if q.project_uid == k then some 0 else elim rest [ none ↦ none | some i ↦ some (suc i) ]

-- The index has the position of every UID.
abbrev IsIndex : Index × List Project → Type 0
IsIndex (idx, l) = (k : String) → lookup k idx ≡ position k l

position-append :
    (k : String) (l : List Project) (p : Project)
    → position k (l ++ p ∷ []) ≡ elim (position k l) [
      | some i ↦ some i
      | none ↦ if p.project_uid == k then some (length l) else none
    ]
unfolding position
position-append k [] p = ground arith
position-append k (q ∷ l) p = ground (arith, position-append k l p)

position-append_detections :
    (k : String) (l : List Project) (i : ℕ) (ds : List Detection)
    → position k (append_detections l i ds) ≡ position k l
unfolding position append_detections
position-append_detections k [] i ds = refl
position-append_detections k (q ∷ l) zero ds = refl
position-append_detections k (q ∷ l) (suc i) ds =
    ground (arith, position-append_detections k l i ds)

absorb_at :
    (p : Project) (l : List Project) (i : ℕ)
    → position p.project_uid l ≡ some i
    → append_detections l i p.detections ≡ absorb p l
unfolding position append_detections absorb
absorb_at p [] i h = ground arith
absorb_at p (q ∷ l) zero h = ground arith
absorb_at p (q ∷ l) (suc i) h = ground (arith, absorb_at p l i)

absorb_new :
    (p : Project) (l : List Project) → position p.project_uid l ≡ none → l ++ p ∷ [] ≡ absorb p l
unfolding position absorb
absorb_new p [] h = refl
absorb_new p (q ∷ l) h = ground (arith, absorb_new p l)

module _ (idx : Index) (l : List Project) (p : Project) (h : IsIndex (idx, l)) where
  merge_at-IsIndex : (o : Option ℕ) → lookup p.project_uid idx ≡ o → IsIndex (merge_at o idx l p)
  unfolding merge_at
  merge_at-IsIndex (some i) e k = h k ∙ sym (position-append_detections k l i p.detections)
  merge_at-IsIndex none e k =
      ground (arith, h k, h p.project_uid, position-append k l p, eq_iff p.project_uid k)

  merge_at-absorb :
      (o : Option ℕ) → lookup p.project_uid idx ≡ o → (merge_at o idx l p).1 ≡ absorb p l
  unfolding merge_at
  merge_at-absorb (some i) e = absorb_at p l i (sym (h p.project_uid) ∙ e)
  merge_at-absorb none e = absorb_new p l (sym (h p.project_uid) ∙ e)

foldl-absorb :
    (s : Index × List Project) (ps : List Project)
    → IsIndex s
    → (foldl merge_step s ps).1 ≡ foldl (λ l p. absorb p l) s.1 ps
unfolding merge_step
foldl-absorb s [] h = refl
foldl-absorb (idx, l) (p ∷ ps) h =
    foldl-absorb (merge_step (idx, l) p) ps (merge_at-IsIndex idx l p h _ refl)
    ∙ ap (λ m. foldl (λ l p. absorb p l) m ps) (merge_at-absorb idx l p h _ refl)

-- The merge with an index map is the merge by scanning.
pub merge_projects-collapse :
    (dst src : List Project) → merge_projects dst src ≡ collapse (dst ++ src)
unfolding merge_projects collapse position
merge_projects-collapse dst src =
    ap (λ s. s.1) (sym (foldl-append merge_step ([], []) dst src))
    ∙ foldl-absorb ([], []) (dst ++ src) (λ k. refl)
