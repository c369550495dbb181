-- ===== src/Text.antt =====
-- The functions of Go's package strings that the program calls.
pub mod Laws
use Prim.Native.Char.{Char, code}
use Prim.Native.String
use Prim.Native.String.{char_at}
use lfx_v2_persona_service.Prelude.{
  ℕ, ◌-◌, String, ◌<>◌, Bool, true, false, ◌&&◌, ◌||◌, List, [], ◌∷◌, ltb, leb, same_num, ◌==◌,
  if◌then◌else◌,
}
use lfx_v2_persona_service.Runtime.{Runtime}

-- `unicode.IsSpace`
unfoldable pub is_space : Char → Bool
is_space c =
    let r = code c in
    leb 9 r && leb r 13
    || same_num r 32
    || same_num r 0x85
    || same_num r 0xa0
    || same_num r 0x1680
    || leb 0x2000 r && leb r 0x200a
    || same_num r 0x2028
    || same_num r 0x2029
    || same_num r 0x202f
    || same_num r 0x205f
    || same_num r 0x3000

unfoldable pub trim_left : (Char → Bool) → String → String
trim_left cut String.[] = ""
trim_left cut (String.◌∷◌ c s) =
    let rest = trim_left cut s in if cut c then rest else String.◌∷◌ c s

unfoldable pub trim_right : (Char → Bool) → String → String
trim_right cut String.[] = ""
trim_right cut (String.◌∷◌ c s) =
    let rest = trim_right cut s in if cut c && rest == "" then "" else String.◌∷◌ c rest

-- `strings.TrimSpace`
unfoldable pub trim_space : String → String
unfolding trim_left trim_right is_space
trim_space s = trim_right is_space (trim_left is_space s)

-- `strings.TrimRight(s, "/")`
unfoldable pub trim_slashes : String → String
unfolding trim_right
trim_slashes = trim_right (λ c. same_num (code c) b'/')

abbrev is_upper : Char → Bool
is_upper c = leb b'A' (code c) && leb (code c) b'Z'

lower_ascii : Char → Char
lower_ascii c = if is_upper c then char_at "abcdefghijklmnopqrstuvwxyz" (code c - b'A') else c

abbrev is_ascii : Char → Bool
is_ascii c = ltb (code c) 128

-- `strings.Join`
unfoldable pub join : String → List String → String
join sep [] = ""
join sep (x ∷ []) = x
join sep (x ∷ y ∷ xs) = x <> sep <> join sep (y ∷ xs)

-- A character before the first piece.
add_first : Char → List String → List String
add_first c [] = String.◌∷◌ c "" ∷ []
add_first c (p ∷ ps) = String.◌∷◌ c p ∷ ps

-- `strings.Split` at a separator of one character.
unfoldable pub split : ℕ → String → List String
unfolding add_first
split sep String.[] = "" ∷ []
split sep (String.◌∷◌ c s) =
    let rest = split sep s in if same_num (code c) sep then "" ∷ rest else add_first c rest

module _ (rt : Runtime) where
  lower : Char → Char
  unfolding lower_ascii
  lower c = if is_ascii c then lower_ascii c else rt.lower_rune c

  -- `strings.ToLower`
  unfoldable pub to_lower : String → String
  unfolding lower
  to_lower String.[] = ""
  to_lower (String.◌∷◌ c s) = String.◌∷◌ (lower c) (to_lower s)

  fold_eq : Char → Char → Bool
  unfolding lower_ascii
  fold_eq c d =
      same_num (code c) (code d)
      || (if is_ascii c && is_ascii d
          then same_num (code (lower_ascii c)) (code (lower_ascii d))
          else rt.same_fold c d)

  -- `strings.EqualFold`
  unfoldable pub equal_fold : String → String → Bool
  unfolding fold_eq
  equal_fold String.[] String.[] = true
  equal_fold String.[] (String.◌∷◌ d t) = false
  equal_fold (String.◌∷◌ c s) String.[] = false
  equal_fold (String.◌∷◌ c s) (String.◌∷◌ d t) = fold_eq c d && equal_fold s t
