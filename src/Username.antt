-- ===== src/Username.antt =====
-- internal/service/username_validation.go
pub mod Filters
use Prim.Native.Char.{Char, code}
use Prim.Native.String
use lfx_v2_persona_service.Prelude.{
  String, Bool, true, false, ◌&&◌, ◌||◌, leb, same_num, ◌==◌, if◌then◌else◌,
}

-- The case of the switch that continues the loop.
is_allowed : Char → Bool
is_allowed c =
    let r = code c in
    leb b'a' r && leb r b'z'
    || leb b'A' r && leb r b'Z'
    || leb b'0' r && leb r b'9'
    || same_num r b'_'
    || same_num r b'-'
    || same_num r b'.'

-- The loop over the runes.
all_allowed : String → Bool
unfolding is_allowed
all_allowed String.[] = true
all_allowed (String.◌∷◌ c s) = is_allowed c && all_allowed s

unfoldable pub is_valid_query_username : String → Bool
unfolding all_allowed
is_valid_query_username username = if username == "" then true else all_allowed username
