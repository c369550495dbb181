-- ===== src/Sources/AccessTokens.antt =====
-- Which tokens the writer and auditor source gives a resource, in whatever order its map is visited.
use mathlib.Core.Path.{ap₂}
use mathlib.Core.List.{foldl, append_assoc, append-nil}
use lfx_v2_persona_service.Prelude.{
  String, Bool, false, ◌||◌, Option, none, some, Slice, elements, refl, List, [], ◌∷◌, ◌++◌, ◌==◌,
  ◌≡◌, sym, ap, ◌∙◌, arith, if◌then◌else◌, Bool-cases, inl, inr, eq_iff,
}
use lfx_v2_persona_service.Runtime.{Runtime}
use lfx_v2_persona_service.Model.{PersonaRequest}
use lfx_v2_persona_service.Model.Source
use lfx_v2_persona_service.Json.Decode.{decode_raw}
use lfx_v2_persona_service.Text.{equal_fold}
use lfx_v2_persona_service.Query.{Resource, ProjectData, ProjectPerson}
use lfx_v2_persona_service.Query.Tables.{decode_project, empty_project}
use lfx_v2_persona_service.Sources.Access.{
  Matches, any_person, add_match, match_if, matches, project_contains_writer,
  project_contains_auditor,
}

-- The tokens of a resource in the map.
abbrev pub tokens_of : String → Matches → List String
tokens_of k [] = []
tokens_of k ((j, m) ∷ ms) = if j == k then m.sources else tokens_of k ms

-- A token for each accepted resource of this ID.
abbrev pub token_each : (Resource → Bool) → String → String → List Resource → List String
token_each accept token k [] = []
token_each accept token k (r ∷ rs) =
    if accept r
    then if r.id == k then token ∷ token_each accept token k rs else token_each accept token k rs
    else token_each accept token k rs

tokens_of-add_match :
    (k token : String) (r : Resource) (ms : Matches)
    → tokens_of k (add_match token r ms) ≡ tokens_of k ms ++ (if r.id == k then token ∷ [] else [])
unfolding add_match
tokens_of-add_match k token r [] = ground arith
tokens_of-add_match k token r ((j, m) ∷ ms) = elim (Bool-cases (j == r.id)) [
  | inl e ↦
      rw e (ground (arith, eq_iff j r.id, eq_iff j k, eq_iff r.id k, append-nil (tokens_of k ms)))
  | inr e ↦ rw e (
      ground (
        arith,
        tokens_of-add_match k token r ms,
        eq_iff j r.id,
        eq_iff j k,
        eq_iff r.id k,
        append-nil m.sources,
      ))
]

tokens_of-foldl :
    (accept : Resource → Bool) (k token : String) (ms : Matches) (rs : List Resource)
    → tokens_of k (foldl (match_if accept token) ms rs)
      ≡ tokens_of k ms ++ token_each accept token k rs
unfolding match_if
tokens_of-foldl accept k token ms [] = sym (append-nil (tokens_of k ms))
tokens_of-foldl accept k token ms (r ∷ rs) =
    tokens_of-foldl accept k token (match_if accept token ms r) rs
    ∙ ground (
      arith,
      tokens_of-add_match k token r ms,
      append_assoc (tokens_of k ms) (token ∷ []) (token_each accept token k rs),
      append-nil (tokens_of k ms),
    )

abbrev pub some_listed : (String → Bool) → List ProjectPerson → Bool
some_listed test [] = false
some_listed test (p ∷ ps) = test p.username || some_listed test ps

-- Whether a resource that decodes as a project has a person of this username, in any case, among these
-- of its people.
abbrev pub lists_person : Runtime → (ProjectData → Slice ProjectPerson) → String → Resource → Bool
lists_person rt people username r = elim (decode_raw (decode_project rt) empty_project r.fields) [
  | none ↦ false
  | some d ↦ some_listed (λ name. equal_fold rt name username) (elements (people d))
]

any_person-some_listed :
    (rt : Runtime) (username : String) (ps : List ProjectPerson)
    → any_person rt username ps ≡ some_listed (λ name. equal_fold rt name username) ps
unfolding any_person
any_person-some_listed rt username [] = refl
any_person-some_listed rt username (p ∷ ps) =
    ap (λ b. equal_fold rt p.username username || b) (any_person-some_listed rt username ps)

-- The test of one array, after the record was decoded.
decoded_people :
    (rt : Runtime) (people : ProjectData → Slice ProjectPerson) (username : String)
    (o : Option ProjectData)
    → (elim o [ none ↦ false | some d ↦ any_person rt username (elements (people d)) ]) ≡ (elim o [
      | none ↦ false
      | some d ↦ some_listed (λ name. equal_fold rt name username) (elements (people d))
    ])
decoded_people rt people username none = refl
decoded_people rt people username (some d) =
    any_person-some_listed rt username (elements (people d))

writer-lists_person :
    (rt : Runtime) (username : String) (r : Resource)
    → project_contains_writer rt r.fields username ≡ lists_person rt (λ d. d.writers) username r
unfolding project_contains_writer
writer-lists_person rt username r =
    decoded_people rt (λ d. d.writers) username
      (decode_raw (decode_project rt) empty_project r.fields)

auditor-lists_person :
    (rt : Runtime) (username : String) (r : Resource)
    → project_contains_auditor rt r.fields username ≡ lists_person rt (λ d. d.auditors) username r
unfolding project_contains_auditor
auditor-lists_person rt username r =
    decoded_people rt (λ d. d.auditors) username
      (decode_raw (decode_project rt) empty_project r.fields)

-- A resource has a writer token for each time that the writers leg returned it with the caller among
-- its writers, and then an auditor token for each time that the auditors leg returned it with the caller
-- among its auditors; no other array of people is looked at. Usernames are compared without case.
pub tokens_of-matches :
    (rt : Runtime) (req : PersonaRequest) (writers auditors : List Resource) (k : String)
    → tokens_of k (matches rt req writers auditors)
      ≡ token_each (lists_person rt (λ d. d.writers) req.username) Source.writer k writers
        ++ token_each (lists_person rt (λ d. d.auditors) req.username) Source.auditor k auditors
unfolding matches
tokens_of-matches rt req writers auditors k =
    let is_writer : Resource → Bool = λ r. project_contains_writer rt r.fields req.username in
    let is_auditor : Resource → Bool = λ r. project_contains_auditor rt r.fields req.username in
    tokens_of-foldl is_auditor k Source.auditor
      (foldl (match_if is_writer Source.writer) [] writers) auditors
    ∙ ap (λ l. l ++ token_each is_auditor Source.auditor k auditors)
        (tokens_of-foldl is_writer k Source.writer [] writers)
    ∙ ap₂ (λ l m. l ++ m)
        (ap (λ t. token_each t Source.writer k writers)
          (λ i r. writer-lists_person rt req.username r i))
        (ap (λ t. token_each t Source.auditor k auditors)
          (λ i r. auditor-lists_person rt req.username r i))
