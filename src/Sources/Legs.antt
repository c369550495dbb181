-- ===== src/Sources/Legs.antt =====
-- The two legs of a query and their merge by `Resource.ID`, as each source of internal/service
-- writes it out.
use mathlib.Core.List.{foldl}
use lfx_v2_persona_service.Prelude.{
  String, Bool, true, false, Option, none, some, List, [], ◌∷◌, ◌++◌, ◌==◌, if◌then◌else◌, Slice,
  elements, contains, Result, ok, err,
}
use lfx_v2_persona_service.Json.Decode.{Decoder, decode_raw}
use lfx_v2_persona_service.Runtime.{Runtime}
use lfx_v2_persona_service.Text.{equal_fold}
use lfx_v2_persona_service.Model.{Project}
use lfx_v2_persona_service.Query.{Resource}

-- What `Search` returned to a leg.
abbrev pub Leg : Type 0
Leg = Result (Slice Resource)

-- The username leg is skipped when the username is empty.
abbrev pub unless_empty : String → Leg → Leg
unless_empty username leg = if username == "" then ok none else leg

-- The resources of both legs; the source fails only if both legs have failed.
unfoldable pub both_legs : Leg → Leg → Result (List Resource × List Resource)
both_legs (err e) (err f) = err e
both_legs (ok a) (err f) = ok (elements a, [])
both_legs (err e) (ok b) = ok ([], elements b)
both_legs (ok a) (ok b) = ok (elements a, elements b)

-- `seen` and `merged`
abbrev pub Merged : Type 0
Merged = List String × List Resource

-- One round of a loop over a leg: a resource already seen, or not accepted, is skipped.
unfoldable pub add_if : (Resource → Bool) → Merged → Resource → Merged
add_if accept (seen, merged) r =
    if contains seen r.id
    then (seen, merged)
    else if accept r
    then (r.id ∷ seen, merged ++ r ∷ [])
    else (seen, merged)

-- The loop over the email leg, then the one over the username leg.
unfoldable pub merge_legs : (Resource → Bool) → List Resource → List Resource → List Resource
unfolding add_if
merge_legs accept email username =
    (foldl (add_if accept) (foldl (add_if (λ _. true)) ([], []) email) username).1

-- The local post-filter: the resource decodes, and its username is the caller's but for case.
unfoldable pub has_username :
    {A : Type 0} → Runtime → Decoder A → A → (A → String) → String → Resource → Bool
unfolding decode_raw
has_username rt decode zero_value get username r = elim (decode_raw decode zero_value r.fields) [
  | none ↦ false
  | some a ↦ equal_fold rt (get a) username
]

-- The loop that turns resources into projects: those that do not decode or give none are skipped.
unfoldable pub convert :
    {A : Type 0} → Decoder A → A → (Resource → A → Option Project) → List Resource → List Project
unfolding decode_raw
convert decode zero_value make [] = []
convert decode zero_value make (r ∷ rs) =
    let rest = convert decode zero_value make rs in
    elim (decode_raw decode zero_value r.fields) [
      | none ↦ rest
      | some a ↦ elim (make r a) [ none ↦ rest | some p ↦ p ∷ rest ]
    ]

-- `if data.ProjectUID == "" { continue }`
abbrev pub unless_no_uid : String → Project → Option Project
unless_no_uid uid p = if uid == "" then none else some p
