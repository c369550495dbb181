-- ===== src/Json/Encode.antt =====
-- `json.Marshal` of the types that the program uses.
use lfx_v2_persona_service.Prelude.{
  String, Option, none, some, List, [], ◌∷◌, Slice, ◌≡◌, refl, arith, All, elements,
}
use lfx_v2_persona_service.Json.{Json, null, str, arr, obj, Items, nil, cons, Fields, end, field}
use lfx_v2_persona_service.Json.Decode.{Decoder, decode_items, decode_slice}

abbrev pub fields : List (String × Json) → Fields
fields [] = end
fields ((k, v) ∷ l) = field k v (fields l)

-- A struct, its fields in order.
abbrev pub object : List (String × Json) → Json
object l = obj (fields l)

abbrev pub encode_optional : Option String → Json
encode_optional none = null
encode_optional (some s) = str s

module _ {A : Type 0} (encode : A → Json) where
  unfoldable pub encode_items : List A → Items
  encode_items [] = nil
  encode_items (a ∷ l) = cons (encode a) (encode_items l)

  -- A `nil` slice is `null`.
  unfoldable pub encode_slice : Slice A → Json
  unfolding encode_items
  encode_slice none = null
  encode_slice (some l) = arr (encode_items l)

-- A slice whose elements survive encoding survives it whole, `nil` and empty told apart.
module _ {A : Type 0} (P : A → Type 0) (encode : A → Json) (zero_value : A) (decode : Decoder A)
    (back : (a : A) → P a → decode (encode a) zero_value ≡ some a) where
  pub decode_items-encode_items :
      (l : List A) → All P l → decode_items zero_value decode (encode_items encode l) ≡ some l
  unfolding decode_items encode_items
  decode_items-encode_items [] h = refl
  decode_items-encode_items (a ∷ l) h = ground (arith, back a h.0, decode_items-encode_items l h.1)

  pub decode_slice-encode_slice :
      (s t : Slice A)
      → All P (elements s)
      → decode_slice zero_value decode (encode_slice encode s) t ≡ some s
  unfolding decode_slice encode_slice
  decode_slice-encode_slice none t h = refl
  decode_slice-encode_slice (some l) t h = ground (arith, decode_items-encode_items l h)
