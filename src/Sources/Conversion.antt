-- ===== src/Sources/Conversion.antt =====
-- The conversion of resources into projects, as the sources of internal/service write it out.
use lfx_v2_persona_service.Prelude.{Option, none, some, List, [], ◌∷◌, ◌++◌, ◌≡◌, refl, arith, All}
use lfx_v2_persona_service.Json.Decode.{Decoder, decode_raw}
use lfx_v2_persona_service.Model.{Project}
use lfx_v2_persona_service.Query.{Resource}
use lfx_v2_persona_service.Sources.Legs.{convert}

module _ {A : Type 0} (decode : Decoder A) (zero_value : A)
    (make : Resource → A → Option Project) where
  -- The conversion works on each resource alone.
  pub convert-append :
      (rs ss : List Resource)
      → convert decode zero_value make (rs ++ ss)
        ≡ convert decode zero_value make rs ++ convert decode zero_value make ss
  unfolding convert
  convert-append [] ss = refl
  convert-append (r ∷ rs) ss = ground (arith, convert-append rs ss)

  -- What holds of every project that `make` gives holds of all that are converted.
  pub All-convert :
      (P : Project → Type 0)
      → ((r : Resource) (a : A) (p : Project) → make r a ≡ some p → P p)
      → (rs : List Resource) → All P (convert decode zero_value make rs)
  unfolding convert
  All-convert P h [] = tt
  All-convert P h (r ∷ rs) = go (decode_raw decode zero_value r.fields) (All-convert P h rs)
    where
      put :
          (a : A) (o : Option Project)
          → make r a ≡ o
          → All P (convert decode zero_value make rs)
          → All P (elim o [
            | none ↦ convert decode zero_value make rs
            | some p ↦ p ∷ convert decode zero_value make rs
          ])
      put a none e t = t
      put a (some p) e t = (h r a p e, t)

      go :
          (o : Option A)
          → All P (convert decode zero_value make rs)
          → All P (elim o [
            | none ↦ convert decode zero_value make rs
            | some a ↦ elim (make r a) [
              | none ↦ convert decode zero_value make rs
              | some p ↦ p ∷ convert decode zero_value make rs
            ]
          ])
      go none t = t
      go (some a) t = put a (make r a) refl t
