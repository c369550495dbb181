-- ===== src/Nats/Headers.antt =====
-- internal/infrastructure/nats/tracing.go: the headers of a message as a carrier of trace context.
use lfx_v2_persona_service.Prelude.{
  String, ◌==◌, true, Option, none, some, List, [], ◌∷◌, map, lookup, if◌then◌else◌, contains,
  IsDistinct, ◌≡◌, refl, arith, eq_iff,
}

-- `natsHeaderCarrier`: a map from keys to lists of values, each key once; `none` is the nil map.
abbrev pub Carrier : Type 0
Carrier = Option (List (String × List String))

abbrev first_value : Option (List String) → String
first_value none = ""
first_value (some []) = ""
first_value (some (v ∷ vs)) = v

unfoldable pub get : Carrier → String → String
get none key = ""
get (some m) key = first_value (lookup key m)

-- `c[key] = values`
unfoldable pub insert :
    String → List String → List (String × List String) → List (String × List String)
insert key vs [] = (key, vs) ∷ []
insert key vs ((k, old) ∷ m) = if k == key then (k, vs) ∷ m else (k, old) ∷ insert key vs m

unfoldable pub set : Carrier → String → String → Carrier
unfolding insert
set none key value = none
set (some m) key value = some (insert key (value ∷ []) m)

abbrev keys_of : List (String × List String) → List String
keys_of = map (λ e. e.0)

-- The keys, up to the order of the map.
unfoldable pub keys : Carrier → List String
keys none = []
keys (some m) = keys_of m

lookup-insert :
    (key j : String) (vs : List String) (m : List (String × List String))
    → lookup j (insert key vs m) ≡ (if key == j then some vs else lookup j m)
unfolding insert
lookup-insert key j vs [] = refl
lookup-insert key j vs ((k, old) ∷ m) =
    ground (arith, lookup-insert key j vs m, eq_iff k key, eq_iff k j, eq_iff key j)

contains-keys-insert :
    (key j : String) (vs : List String) (m : List (String × List String))
    → contains (keys_of (insert key vs m)) j ≡ (if key == j then true else contains (keys_of m) j)
unfolding insert
contains-keys-insert key j vs [] = ground arith
contains-keys-insert key j vs ((k, old) ∷ m) =
    ground (arith, contains-keys-insert key j vs m, eq_iff k key, eq_iff k j, eq_iff key j)

insert-IsDistinct :
    (key : String) (vs : List String) (m : List (String × List String))
    → IsDistinct (keys_of m)
    → IsDistinct (keys_of (insert key vs m))
unfolding insert
insert-IsDistinct key vs [] h = (refl, tt)
insert-IsDistinct key vs ((k, old) ∷ m) h = ground (
  arith,
  insert-IsDistinct key vs m h.1,
  contains-keys-insert key k vs m,
  eq_iff k key,
  eq_iff key k,
)

-- After a `Set` on a map that is not nil, `Get` gives the value for its key and what it gave for any
-- other, and `Keys` lists the key and the keys that were there, each once.
pub get-set :
    (m : List (String × List String)) (key value j : String)
    → IsDistinct (keys (some m))
    → (get (set (some m) key value) j ≡ (if key == j then value else get (some m) j))
      × (contains (keys (set (some m) key value)) j
          ≡ (if key == j then true else contains (keys (some m)) j))
      × IsDistinct (keys (set (some m) key value))
unfolding get set keys
get-set m key value j h = (
  ground (arith, lookup-insert key j (value ∷ []) m),
  contains-keys-insert key j (value ∷ []) m,
  insert-IsDistinct key (value ∷ []) m h,
)
