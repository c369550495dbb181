-- ===== src/Handler/Collector/Replies.antt =====
-- What the reply of the collecting loop says of the sources, whatever the schedule.
use mathlib.Core.Path.{subst, subst₂, ap₂}
use mathlib.Core.Option.{some-ne-none}
use mathlib.Core.List.{foldl, append_assoc, append-nil, Permᴰ}
use mathlib.Core.List.Permᴰ as PermD
use lfx_v2_persona_service.Prelude.{
  String, false, List, [], ◌∷◌, ◌++◌, Slice, none, some, elements, ◌≡◌, ◌≢◌, refl, ap, sym, ◌∙◌,
  inl, inr, ok, err, Result, IsDistinct,
}
use lfx_v2_persona_service.Model.{PersonaResponse, Project, Detection}
use lfx_v2_persona_service.Model.Merge.{uids}
use lfx_v2_persona_service.Model.Detections.{
  detections_of, detections_of-merge_projects, merge_projects-IsDistinct,
}
use lfx_v2_persona_service.Handler.{SourceResult}
use lfx_v2_persona_service.Handler.Collector.{
  Collector, replied, start, Run, timeout_response, full_response, receive, never_nil,
}
use lfx_v2_persona_service.Handler.Collector.Invariant.{Justifies, Run-Explains}

-- The detections that a source has for a UID: none if it failed.
abbrev pub found_by : String → Result (List Project) → List Detection
found_by k (err e) = []
found_by k (ok ps) = detections_of k ps

abbrev pub found_by_all : String → List SourceResult → List Detection
found_by_all k [] = []
found_by_all k (r ∷ rs) = found_by k r.result ++ found_by_all k rs

found_by_all-append :
    (k : String) (rs ss : List SourceResult)
    → found_by_all k (rs ++ ss) ≡ found_by_all k rs ++ found_by_all k ss
found_by_all-append k [] ss = refl
found_by_all-append k (r ∷ rs) ss =
    ap (λ l. found_by k r.result ++ l) (found_by_all-append k rs ss)
    ∙ sym (append_assoc (found_by k r.result) (found_by_all k rs) (found_by_all k ss))

exchange : (xs ys zs : List Detection) → Permᴰ (xs ++ (ys ++ zs)) (ys ++ (xs ++ zs))
exchange xs ys zs =
    subst₂ (λ l m. Permᴰ l m) (append_assoc xs ys zs) (append_assoc ys xs zs)
      (PermD.append_right zs (PermD.append_comm xs ys))

-- The order of the sources does not matter to the multiset of detections.
found_by_all-perm :
    (k : String) {rs ss : List SourceResult}
    → Permᴰ rs ss
    → Permᴰ (found_by_all k rs) (found_by_all k ss)
found_by_all-perm k Permᴰ.nil = Permᴰ.nil
found_by_all-perm k (Permᴰ.cons {a = a} {l₁ = l₁} {l₂ = l₂} e p) =
    subst (λ r. Permᴰ (found_by_all k (a ∷ l₁)) (found_by k r.result ++ found_by_all k l₂)) e
      (PermD.append_left (found_by k a.result) (found_by_all-perm k p))
found_by_all-perm k (Permᴰ.swap {a = a} {b = b} {l = l} e f) =
    subst₂ (λ x y. Permᴰ (found_by_all k (a ∷ b ∷ l)) (found_by_all k (y ∷ x ∷ l))) e f
      (exchange (found_by k a.result) (found_by k b.result) (found_by_all k l))
found_by_all-perm k (Permᴰ.trans p q) = Permᴰ.trans (found_by_all-perm k p) (found_by_all-perm k q)

found_in-receive_at :
    (k name : String) (projects : Slice Project) (o : Result (List Project))
    → detections_of k (elements (receive projects (record { name = name; result = o })))
      ≡ detections_of k (elements projects) ++ found_by k o
unfolding receive
found_in-receive_at k name projects (err e) = sym (append-nil (detections_of k (elements projects)))
found_in-receive_at k name projects (ok ps) = detections_of-merge_projects k (elements projects) ps

found_in-receive :
    (k : String) (projects : Slice Project) (r : SourceResult)
    → detections_of k (elements (receive projects r))
      ≡ detections_of k (elements projects) ++ found_by k r.result
found_in-receive k projects r = found_in-receive_at k r.name projects r.result

found_in-foldl :
    (k : String) (projects : Slice Project) (rs : List SourceResult)
    → detections_of k (elements (foldl receive projects rs))
      ≡ detections_of k (elements projects) ++ found_by_all k rs
found_in-foldl k projects [] = sym (append-nil _)
found_in-foldl k projects (r ∷ rs) =
    found_in-foldl k (receive projects r) rs
    ∙ ap (λ l. l ++ found_by_all k rs) (found_in-receive k projects r)
    ∙ append_assoc (detections_of k (elements projects)) (found_by k r.result) (found_by_all k rs)

elements-never_nil : (s : Slice Project) → elements (never_nil s) ≡ elements s
unfolding never_nil
elements-never_nil none = refl
elements-never_nil (some ps) = refl

never_nil-ne-none : (s : Slice Project) → never_nil s ≢ none
unfolding never_nil
never_nil-ne-none none p = cc
never_nil-ne-none (some ps) p = cc

receive-IsDistinct :
    (projects : Slice Project) (name : String) (o : Result (List Project))
    → IsDistinct (uids (elements projects))
    → IsDistinct (uids (elements (receive projects (record { name = name; result = o }))))
unfolding receive
receive-IsDistinct projects name (err e) h = h
receive-IsDistinct projects name (ok ps) h = merge_projects-IsDistinct (elements projects) ps

foldl-IsDistinct :
    (projects : Slice Project) (rs : List SourceResult)
    → IsDistinct (uids (elements projects))
    → IsDistinct (uids (elements (foldl receive projects rs)))
foldl-IsDistinct projects [] h = h
foldl-IsDistinct projects (r ∷ rs) h =
    foldl-IsDistinct (receive projects r) rs (receive-IsDistinct projects r.name r.result h)

module _ (srcs : List SourceResult) (c : Collector) (run : Run (start srcs) c)
    (resp : PersonaResponse) (e : c.phase ≡ replied resp) where
  justified_reply : Justifies c (replied resp)
  justified_reply = subst (Justifies c) e (Run-Explains srcs c run).1.justified

  -- A reply lists what was collected, with or without an error.
  projects-reply : resp.projects ≡ never_nil c.projects
  unfolding timeout_response full_response
  projects-reply = elim justified_reply [
    | inl (p, _, _) ↦ ap (λ r. r.projects) p
    | inr (p, _) ↦ ap (λ r. r.projects) p
  ]

  -- What a reply lists is what was merged.
  pub elements_of_reply : elements resp.projects ≡ elements c.projects
  elements_of_reply = ap elements projects-reply ∙ elements-never_nil c.projects

  received : List SourceResult
  received = (Run-Explains srcs c run).0

  found_in_reply : (k : String) → detections_of k (elements resp.projects) ≡ found_by_all k received
  unfolding received
  found_in_reply k =
      ap (λ s. detections_of k (elements s)) projects-reply
      ∙ ap (detections_of k) (elements-never_nil c.projects)
      ∙ ap (λ s. detections_of k (elements s)) (Run-Explains srcs c run).1.gathered
      ∙ found_in-foldl k none received

  -- Whatever the schedule, a reply has of each project only detections of the sources, each at most
  -- as often as they have it: the rest was not received.
  pub reply_within_sources :
      (k : String)
      → (rest : List Detection) × Permᴰ
          (detections_of k (elements resp.projects) ++ rest)
          (found_by_all k srcs)
  unfolding received
  reply_within_sources k =
      let left = c.buffer ++ c.pending in
      (
        found_by_all k left,
        subst (λ l. Permᴰ (l ++ found_by_all k left) (found_by_all k srcs)) (sym (found_in_reply k))
            (subst (λ l. Permᴰ l (found_by_all k srcs)) (found_by_all-append k received left)
              (found_by_all-perm k (Run-Explains srcs c run).1.each_once)),
      )

  all_received : resp.error ≡ none → (c.buffer ≡ []) × (c.pending ≡ [])
  unfolding timeout_response
  all_received no_error = elim justified_reply [
    | inl (_, b, p) ↦ (b, p)
    | inr (p, _) ↦ absurd (some-ne-none _ (sym (ap (λ r. r.error) p) ∙ no_error))
  ]

  -- A reply without an error has, for each UID, exactly the detections of the sources that succeeded,
  -- each as often as they have it, in some order.
  pub reply_complete :
      (k : String)
      → resp.error ≡ none
      → Permᴰ (detections_of k (elements resp.projects)) (found_by_all k srcs)
  unfolding received
  reply_complete k no_error =
      let left = all_received no_error in
      subst (λ l. Permᴰ l (found_by_all k srcs)) (sym (found_in_reply k))
        (found_by_all-perm k (
          subst (λ l. Permᴰ l srcs)
            (ap₂ (λ b p. received ++ (b ++ p)) left.0 left.1 ∙ append-nil received)
            (Run-Explains srcs c run).1.each_once))

  -- A reply of a run whose context has not ended has no error.
  pub reply_in_time : c.expired ≡ false → resp.error ≡ none
  unfolding full_response
  reply_in_time lasting = elim justified_reply [
    | inl (p, _, _) ↦ ap (λ r. r.error) p
    | inr (_, expired) ↦ cc
  ]

  -- The projects of a reply are a list, never `null`, with one entry for each UID.
  pub reply_well_formed : (resp.projects ≢ none) × IsDistinct (uids (elements resp.projects))
  unfolding received
  reply_well_formed = (
    λ p. never_nil-ne-none c.projects (sym projects-reply ∙ p),
    subst (λ ps. IsDistinct (uids ps))
        (sym (
          ap elements projects-reply
          ∙ elements-never_nil c.projects
          ∙ ap elements (Run-Explains srcs c run).1.gathered))
        (foldl-IsDistinct none received tt),
  )
