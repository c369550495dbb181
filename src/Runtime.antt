-- ===== src/Runtime.antt =====
-- What the program takes from Go's library and this library only names: the Unicode tables beyond
-- ASCII, and the grammar of JSON texts.
use Prim.Native.Char.{Char}
use lfx_v2_persona_service.Prelude.{String, Bool, Option, some}
use lfx_v2_persona_service.Json.{Json, Bytes, document, text}

pub record Runtime : Type 0 where
  -- `unicode.ToLower` of a character that is not ASCII.
  pub lower_rune : Char → Char
  -- Whether `unicode.SimpleFold` leads from one of two characters, not both ASCII, to the other.
  pub same_fold : Char → Char → Bool
  -- The document that a text holds, if it is JSON.
  pub parse_json : String → Option Json
  -- The text that `json.Marshal` writes for a document.
  pub print_json : Json → String

module _ (rt : Runtime) where
  -- The document that `json.Unmarshal` finds in a byte string.
  abbrev pub parsed : Bytes → Option Json
  parsed (document v) = some v
  parsed (text s) = rt.parse_json s

  -- `string(bytes)`
  abbrev pub as_string : Bytes → String
  as_string (document v) = rt.print_json v
  as_string (text s) = s
