-- ===== src/Json/Decode.antt =====
-- `json.Unmarshal` into the types that the program uses: a decoder sets a value from a document, and
-- keeps what the document leaves out.
use mathlib.Core.Option
use lfx_v2_persona_service.Prelude.{
  ◌^◌, String, Bool, Option, none, some, List, [], ◌∷◌, ltb, Slice, if◌then◌else◌,
}
use lfx_v2_persona_service.Prelude.{Result, ok, err, message}
use lfx_v2_persona_service.Json.{
  ℤ, pos, negsuc, Json, null, bool, int, str, arr, obj, Items, nil, cons, Fields, end, field, Bytes,
}
use lfx_v2_persona_service.Runtime.{Runtime, parsed}
use lfx_v2_persona_service.Text.{equal_fold}

-- `none` is an `UnmarshalTypeError`.
abbrev pub Decoder : Type 0 → Type 0
Decoder A = Json → A → Option A

unfoldable pub decode_string : Decoder String
decode_string null s = some s
decode_string (str t) s = some t
decode_string _ s = none

unfoldable pub decode_bool : Decoder Bool
decode_bool null b = some b
decode_bool (bool c) b = some c
decode_bool _ b = none

-- Whether a number fits in 64 bits, as `int` does.
abbrev pub fits_int64 : ℤ → Bool
fits_int64 (pos n) = ltb n (2 ^ 63)
fits_int64 (negsuc n) = ltb n (2 ^ 63)

unfoldable pub decode_int : Decoder ℤ
decode_int null n = some n
decode_int (int m) n = if fits_int64 m then some m else none
decode_int _ n = none

-- `*string`
unfoldable pub decode_optional : Decoder (Option String)
decode_optional null o = some none
decode_optional (str t) o = some (some t)
decode_optional _ o = none

-- `json.RawMessage`
unfoldable pub decode_message : Decoder (Option Json)
decode_message v o = some (some v)

module _ {A : Type 0} (zero_value : A) (decode : Decoder A) where
  unfoldable pub decode_items : Items → Option (List A)
  decode_items nil = some []
  decode_items (cons v vs) =
      let rest = decode_items vs in
      elim (decode v zero_value) [ none ↦ none | some a ↦ Option.map (λ as_. a ∷ as_) rest ]

  unfoldable pub decode_slice : Decoder (Slice A)
  unfolding decode_items
  decode_slice null s = some none
  decode_slice (arr vs) s = Option.map some (decode_items vs)
  decode_slice _ s = none

-- The fields of a struct, by the names of their tags.
abbrev pub Table : Type 0 → Type 0
Table A = List (String × Decoder A)

-- The decoder of a field, from that of its type.
abbrev pub on : {A B : Type 0} → (A → B) → (A → B → A) → Decoder B → Decoder A
on get set decode v r = Option.map (set r) (decode v (get r))

module _ (rt : Runtime) {A : Type 0} where
  -- The field for a key: the names of a struct differ by more than case, so an exact match is the
  -- only one that folds to the key.
  unfoldable pub find_field : Table A → String → Option (Decoder A)
  find_field [] key = none
  find_field ((name, d) ∷ t) key = if equal_fold rt key name then some d else find_field t key

  -- A key that no field has is skipped.
  unfoldable pub set_field : Table A → String → Decoder A
  unfolding find_field
  set_field t key v a = elim (find_field t key) [ none ↦ some a | some d ↦ d v a ]

  unfoldable pub set_fields : Table A → Fields → A → Option A
  unfolding set_field Option.bind
  set_fields t end a = some a
  set_fields t (field key v fs) a = Option.bind (set_field t key v a) (set_fields t fs)

  unfoldable pub decode_struct : Table A → Decoder A
  unfolding set_fields
  decode_struct t null a = some a
  decode_struct t (obj fs) a = set_fields t fs a
  decode_struct t _ a = none

  -- `json.Unmarshal`
  unfoldable pub unmarshal : Decoder A → A → Bytes → Result A
  unmarshal decode zero_value b = elim (parsed rt b) [
    | none ↦ err (message "invalid JSON")
    | some v ↦ elim (decode v zero_value) [
      | none ↦ err (message "json: cannot unmarshal value")
      | some a ↦ ok a
    ]
  ]

-- `json.Unmarshal` of a `json.RawMessage`, which is empty where the field was missing.
unfoldable pub decode_raw : {A : Type 0} → Decoder A → A → Option Json → Option A
decode_raw decode zero_value none = none
decode_raw decode zero_value (some v) = decode v zero_value
