-- ===== src/Sources/Merging.antt =====
-- The merge of two legs, as the sources of internal/service write it out, beside a plain description.
use mathlib.Core.List.{foldl, append_assoc, append-nil}
use lfx_v2_persona_service.Prelude.{
  String, Bool, true, ◌&&◌, not, List, [], ◌∷◌, ◌++◌, map, ◌≡◌, refl, ap, sym, ◌∙◌, arith, eq_iff,
  if◌then◌else◌, contains, IsDistinct,
}
use lfx_v2_persona_service.Query.{Resource}
use lfx_v2_persona_service.Sources.Legs.{add_if, merge_legs}

abbrev pub ids : List Resource → List String
ids = map (λ r. r.id)

abbrev pub accepted : (Resource → Bool) → List Resource → List Resource
accepted accept [] = []
accepted accept (r ∷ rs) = if accept r then r ∷ accepted accept rs else accepted accept rs

-- The first resource of each ID that is not among those seen.
unfoldable pub unique_after : List String → List Resource → List Resource
unique_after seen [] = []
unique_after seen (r ∷ rs) =
    let rest = unique_after seen rs in
    let more = unique_after (r.id ∷ seen) rs in if contains seen r.id then rest else r ∷ more

abbrev pub unique : List Resource → List Resource
unique = unique_after []

module _ (accept : Resource → Bool) where
  -- The IDs that a loop has seen after its leg.
  seen_after : List String → List Resource → List String
  seen_after seen [] = seen
  seen_after seen (r ∷ rs) =
      seen_after (if contains seen r.id then seen else if accept r then r.id ∷ seen else seen) rs

  foldl-add_if :
      (seen : List String) (out rs : List Resource)
      → foldl (add_if accept) (seen, out) rs
        ≡ (seen_after seen rs, out ++ unique_after seen (accepted accept rs))
  unfolding add_if unique_after seen_after
  foldl-add_if seen out [] = ap (λ o. (seen, o)) (sym (append-nil out))
  foldl-add_if seen out (r ∷ rs) = ground (
    arith,
    foldl-add_if seen out rs,
    foldl-add_if (r.id ∷ seen) (out ++ r ∷ []) rs,
    append_assoc out (r ∷ []) (unique_after (r.id ∷ seen) (accepted accept rs)),
  )

accepted_all : (rs : List Resource) → accepted (λ _. true) rs ≡ rs
accepted_all [] = refl
accepted_all (r ∷ rs) = ap (λ l. r ∷ l) (accepted_all rs)

unique_after-append :
    (seen : List String) (rs ss : List Resource)
    → unique_after seen (rs ++ ss)
      ≡ unique_after seen rs ++ unique_after (seen_after (λ _. true) seen rs) ss
unfolding unique_after seen_after
unique_after-append seen [] ss = refl
unique_after-append seen (r ∷ rs) ss =
    ground (arith, unique_after-append seen rs ss, unique_after-append (r.id ∷ seen) rs ss)

-- The merge is the email leg followed by what the filter accepts of the username leg, each resource
-- at its first occurrence.
pub merge_legs-unique :
    (accept : Resource → Bool) (email username : List Resource)
    → merge_legs accept email username ≡ unique (email ++ accepted accept username)
unfolding merge_legs
merge_legs-unique accept email username =
    ap (λ s. (foldl (add_if accept) s username).1) (foldl-add_if (λ _. true) [] [] email)
    ∙ ap (λ s. s.1) (foldl-add_if accept _ _ username)
    ∙ ap
        (λ l. unique l ++ unique_after (seen_after (λ _. true) [] email) (accepted accept username))
        (accepted_all email)
    ∙ sym (unique_after-append [] email (accepted accept username))

contains-ids-unique_after :
    (seen : List String) (rs : List Resource) (k : String)
    → contains (ids (unique_after seen rs)) k ≡ (not (contains seen k) && contains (ids rs) k)
unfolding unique_after
contains-ids-unique_after seen [] k = ground arith
contains-ids-unique_after seen (r ∷ rs) k = ground (
  arith,
  contains-ids-unique_after seen rs k,
  contains-ids-unique_after (r.id ∷ seen) rs k,
  eq_iff r.id k,
)

unique_after-IsDistinct :
    (seen : List String) (rs : List Resource) → IsDistinct (ids (unique_after seen rs))
unfolding unique_after
unique_after-IsDistinct seen [] = tt
unique_after-IsDistinct seen (r ∷ rs) = ground (
  arith,
  unique_after-IsDistinct seen rs,
  unique_after-IsDistinct (r.id ∷ seen) rs,
  contains-ids-unique_after (r.id ∷ seen) rs r.id,
  eq_iff r.id r.id,
)

-- No resource is listed twice, whatever the legs return.
pub merge_legs-IsDistinct :
    (accept : Resource → Bool) (email username : List Resource)
    → IsDistinct (ids (merge_legs accept email username))
merge_legs-IsDistinct accept email username =
    rw merge_legs-unique (unique_after-IsDistinct [] (email ++ accepted accept username))
