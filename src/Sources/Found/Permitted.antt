-- ===== src/Sources/Found/Permitted.antt =====
-- The tokens of the detections that source_writer_auditor.go of internal/service gives.
use mathlib.Core.Path.{subst}
use mathlib.Core.List.{foldl, Permᴰ}
use mathlib.Core.List.Permᴰ as PermD
use mathlib.Core.Option.{none-ne-some}
use lfx_v2_persona_service.Prelude.{
  String, true, Bool, List, [], ◌∷◌, ◌++◌, ◌==◌, Option, none, some, ◌≡◌, ◌≢◌, refl, contains, All,
  All-append, map, Bool-cases, inl, inr, eq_iff,
}
use lfx_v2_persona_service.Runtime.{Runtime}
use lfx_v2_persona_service.Nats.{NatsClient}
use lfx_v2_persona_service.Model.{Project, Detection, PersonaRequest}
use lfx_v2_persona_service.Model.Source
use lfx_v2_persona_service.Model.Contract.{HasForm}
use lfx_v2_persona_service.Model.Tokens.{IsFoundBy, IsToken}
use lfx_v2_persona_service.Model.Wire.{encode_detection}
use lfx_v2_persona_service.Query.{Resource, ProjectData}
use lfx_v2_persona_service.Query.Tables.{decode_project, empty_project}
use lfx_v2_persona_service.Json.Decode.{decode_raw}
use lfx_v2_persona_service.Sources.Legs.{Leg, both_legs, unless_no_uid}
use lfx_v2_persona_service.Sources.Slugs.{resolve_project_slug}
use lfx_v2_persona_service.Sources.Access.{
  ProjectMatch, Matches, add_match, match_if, matches, access_project, access_projects, from_legs,
}
use lfx_v2_persona_service.Sources.Found.{
  GivesTokens, GivesTokens-bind, access_tokens, unless_no_uid-kept,
}

-- A match with at least one token, all of this source.
abbrev HasTokens : String × ProjectMatch → Type 0
HasTokens (k, m) = (m.sources ≢ []) × All (λ t. contains access_tokens t ≡ true) m.sources

snoc-ne-nil : (xs : List String) (x : String) → xs ++ x ∷ [] ≢ []
snoc-ne-nil [] x e = cc
snoc-ne-nil (y ∷ xs) x e = cc

add_match-HasTokens :
    (token : String) (r : Resource) (ms : Matches)
    → contains access_tokens token ≡ true
    → All HasTokens ms
    → All HasTokens (add_match token r ms)
unfolding add_match
add_match-HasTokens token r [] t h = ((λ e. cc, (t, tt)), tt)
add_match-HasTokens token r ((j, m) ∷ ms) t (h, hs) = elim (Bool-cases (j == r.id)) [
  | inl e ↦ rw e (
    (
      snoc-ne-nil m.sources token,
      All-append (λ t. contains access_tokens t ≡ true) m.sources (token ∷ []) h.1 (t, tt),
    ),
    hs,
  )
  | inr e ↦ rw e (h, add_match-HasTokens token r ms t hs)
]

foldl-HasTokens :
    (accept : Resource → Bool) (token : String) (ms : Matches) (rs : List Resource)
    → contains access_tokens token ≡ true
    → All HasTokens ms
    → All HasTokens (foldl (match_if accept token) ms rs)
unfolding match_if
foldl-HasTokens accept token ms [] t h = h
foldl-HasTokens accept token ms (r ∷ rs) t h = elim (Bool-cases (accept r)) [
  | inl e ↦ rw e (
      foldl-HasTokens accept token (add_match token r ms) rs t (add_match-HasTokens token r ms t h))
  | inr e ↦ rw e (foldl-HasTokens accept token ms rs t h)
]

-- What holds of a list holds of it in another order.
pub All-perm {ℓ} :
    {A : Type 0} (P : A → Type ℓ) {xs ys : List A} → Permᴰ xs ys → All P xs → All P ys
All-perm P Permᴰ.nil h = h
All-perm P (Permᴰ.cons e p) (h, hs) = (subst P e h, All-perm P p hs)
All-perm P (Permᴰ.swap e f) (h, (k, hs)) = (subst P f k, (subst P e h, hs))
All-perm P (Permᴰ.trans p q) h = All-perm P q (All-perm P p h)

abbrev no_detections : List Detection
no_detections = []

-- A token of the access sources, with nothing extra.
access-HasForm :
    (t : String) → contains access_tokens t ≡ true → HasForm (record { source = t; extra = none })
unfolding encode_detection
access-HasForm t h = elim (Bool-cases (Source.writer == t)) [
  | inl e ↦
      subst (λ u. HasForm (record { source = u; extra = none })) ((eq_iff Source.writer t).0 e) refl
  | inr e ↦ elim (Bool-cases (Source.auditor == t)) [
    | inl f ↦
        subst (λ u. HasForm (record { source = u; extra = none })) ((eq_iff Source.auditor t).0 f)
          refl
    | inr f ↦ let refusal = rw (e, f) at h in cc
  ]
]

detections-HasTokens :
    (ts : List String)
    → All (λ t. contains access_tokens t ≡ true) ts
    → All (IsToken access_tokens) (map (λ src. record { source = src; extra = none }) ts)
detections-HasTokens [] h = tt
detections-HasTokens (t ∷ ts) (h, hs) = ((h, access-HasForm t h), detections-HasTokens ts hs)

map-ne-nil :
    (ts : List String)
    → ts ≢ []
    → map (λ src. record { source = src; extra = none }) ts ≢ no_detections
map-ne-nil [] h e = h refl
map-ne-nil (t ∷ ts) h e = cc

module _ {Bucket : Type 0} (rt : Runtime) (nats : Option (NatsClient Bucket))
    (order : Matches → Matches) (same : (ms : Matches) → Permᴰ (order ms) ms) where
  access_project-IsFoundBy :
      (k : String) (m : ProjectMatch) (p : Project)
      → HasTokens (k, m)
      → access_project rt nats order m ≡ some p
      → IsFoundBy access_tokens p
  unfolding access_project
  access_project-IsFoundBy k m p (h, hs) =
      go (decode_raw (decode_project rt) empty_project m.resource.fields)
    where
      go :
          (o : Option ProjectData)
          → (elim o [
            | none ↦ none
            | some d ↦ unless_no_uid d.uid (record {
              project_uid = d.uid;
              project_slug = resolve_project_slug rt nats d.uid;
              detections = map (λ src. record { source = src; extra = none }) m.sources;
            })
          ])
            ≡ some p
          → IsFoundBy access_tokens p
      go none e = absurd (none-ne-some p e)
      go (some d) e =
          unless_no_uid-kept (IsFoundBy access_tokens) d.uid _ p
            (λ uid. record {
              has_uid = uid;
              has_detection = map-ne-nil m.sources h;
              has_tokens = detections-HasTokens m.sources hs;
            })
            e

  access_projects-IsFoundBy :
      (ms : Matches)
      → All HasTokens ms
      → All (IsFoundBy access_tokens) (access_projects rt nats order ms)
  unfolding access_projects
  access_projects-IsFoundBy [] h = tt
  access_projects-IsFoundBy ((k, m) ∷ ms) (h, hs) =
      go (access_project rt nats order m) (λ p. access_project-IsFoundBy k m p h)
        (access_projects-IsFoundBy ms hs)
    where
      go :
          (o : Option Project)
          → ((p : Project) → o ≡ some p → IsFoundBy access_tokens p)
          → All (IsFoundBy access_tokens) (access_projects rt nats order ms)
          → All (IsFoundBy access_tokens) (elim o [
            | none ↦ access_projects rt nats order ms
            | some p ↦ p ∷ access_projects rt nats order ms
          ])
      go none f t = t
      go (some p) f t = (f p refl, t)

  pub access-GivesTokens :
      (req : PersonaRequest) (writers auditors : Leg)
      → GivesTokens access_tokens (from_legs rt nats order req writers auditors)
  unfolding from_legs matches
  access-GivesTokens req writers auditors =
      GivesTokens-bind access_tokens (both_legs writers auditors)
        (λ x. access_projects rt nats order (order (matches rt req x.0 x.1)))
        (λ x. access_projects-IsFoundBy (order (matches rt req x.0 x.1)) (
          All-perm HasTokens (PermD.symm (same (matches rt req x.0 x.1))) (
            foldl-HasTokens _ Source.auditor _ x.1 refl
              (foldl-HasTokens _ Source.writer [] x.0 refl tt))))
