-- ===== src/Json/Schema.antt =====
-- Shapes of JSON documents, as tests on them.
use lfx_v2_persona_service.Prelude.{
  String, ◌==◌, Bool, true, false, ◌&&◌, not, List, [], ◌∷◌, ◌≡◌, refl, All,
}
use lfx_v2_persona_service.Json.{
  Json, null, int, real, str, arr, obj, Items, nil, cons, Fields, end, field,
}
use lfx_v2_persona_service.Json.Encode.{encode_items}

abbrev pub Schema : Type 0
Schema = Json → Bool

abbrev pub text_schema : Schema
text_schema (str s) = true
text_schema _ = false

-- A text that is not empty.
abbrev pub name_schema : Schema
name_schema (str s) = not (s == "")
name_schema _ = false

abbrev pub literal : String → Schema
literal t (str s) = s == t
literal t _ = false

abbrev pub number_schema : Schema
number_schema (int n) = true
number_schema (real s) = true
number_schema _ = false

abbrev pub nullable : Schema → Schema
nullable p null = true
nullable p j = p j

abbrev pub all_items : Schema → Items → Bool
all_items p nil = true
all_items p (cons j js) = p j && all_items p js

abbrev pub list_of : Schema → Schema
list_of p (arr js) = all_items p js
list_of p _ = false

-- A list that is not empty.
abbrev pub some_of : Schema → Schema
some_of p (arr (cons j js)) = p j && all_items p js
some_of p _ = false

abbrev pub all_fields : List (String × Schema) → Fields → Bool
all_fields [] end = true
all_fields ((k, p) ∷ ps) (field name v vs) = name == k && (p v && all_fields ps vs)
all_fields _ _ = false

-- An object with these fields, in this order.
abbrev pub struct : List (String × Schema) → Schema
struct ps (obj vs) = all_fields ps vs
struct ps _ = false

-- Elements that conform one by one make a list that does.
pub all_items-encode_items :
    {A : Type 0} (P : A → Type 0) (p : Schema) (encode : A → Json)
    → ((a : A) → P a → p (encode a) ≡ true)
    → (l : List A) → All P l
    → all_items p (encode_items encode l) ≡ true
unfolding encode_items
all_items-encode_items P p encode h [] k = refl
all_items-encode_items P p encode h (a ∷ l) (k, ks) =
    rw (h a k, all_items-encode_items P p encode h l ks) refl
