-- ===== src/Model/Tokens.antt =====
-- Projects as the contract of the response has them: a UID, and at least one detection, all with
-- tokens of a given set and of the form of the contract.
use mathlib.Core.List.{foldl}
use lfx_v2_persona_service.Prelude.{
  String, true, List, [], ◌∷◌, ◌++◌, ◌==◌, ◌≡◌, ◌≢◌, refl, contains, All, All-append, Bool-cases,
  inl, inr,
}
use lfx_v2_persona_service.Model.{Project, Detection, merge_projects}
use lfx_v2_persona_service.Model.Contract.{HasForm}
use lfx_v2_persona_service.Model.Merge.{absorb, collapse, merge_projects-collapse}

abbrev pub IsToken : List String → Detection → Type 0
IsToken tokens d = (contains tokens d.source ≡ true) × HasForm d

pub record IsFoundBy (tokens : List String) (p : Project) : Type 0 where
  pub has_uid : p.project_uid ≢ ""
  pub has_detection : p.detections ≢ []
  pub has_tokens : All (IsToken tokens) p.detections

append-ne-nil : (xs ys : List Detection) → xs ≢ [] → xs ++ ys ≢ []
append-ne-nil [] ys h e = h refl
append-ne-nil (x ∷ xs) ys h e = cc

module _ (tokens : List String) where
  absorb-IsFoundBy :
      (p : Project) (l : List Project)
      → IsFoundBy tokens p
      → All (IsFoundBy tokens) l
      → All (IsFoundBy tokens) (absorb p l)
  unfolding absorb
  absorb-IsFoundBy p [] h hs = (h, tt)
  absorb-IsFoundBy p (q ∷ l) h (k, hs) = elim (Bool-cases (q.project_uid == p.project_uid)) [
    | inl e ↦ rw e (
      record {
        has_uid = k.has_uid;
        has_detection = append-ne-nil q.detections p.detections k.has_detection;
        has_tokens =
            All-append (IsToken tokens) q.detections p.detections k.has_tokens h.has_tokens;
      },
      hs,
    )
    | inr e ↦ rw e (k, absorb-IsFoundBy p l h hs)
  ]

  collapse-IsFoundBy :
      (l ps : List Project)
      → All (IsFoundBy tokens) l
      → All (IsFoundBy tokens) ps
      → All (IsFoundBy tokens) (foldl (λ l p. absorb p l) l ps)
  collapse-IsFoundBy l [] h k = h
  collapse-IsFoundBy l (p ∷ ps) h (k, ks) =
      collapse-IsFoundBy (absorb p l) ps (absorb-IsFoundBy p l k h) ks

  -- The merge of such projects has only such projects.
  pub merge_projects-IsFoundBy :
      (dst src : List Project)
      → All (IsFoundBy tokens) dst
      → All (IsFoundBy tokens) src
      → All (IsFoundBy tokens) (merge_projects dst src)
  unfolding collapse
  merge_projects-IsFoundBy dst src h k =
      rw merge_projects-collapse
        (collapse-IsFoundBy [] (dst ++ src) tt (All-append (IsFoundBy tokens) dst src h k))
