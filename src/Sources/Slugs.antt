-- ===== src/Sources/Slugs.antt =====
-- The project service over NATS: `resolveProjectSlug` of source_executive_director.go, and the parse of
-- a reply that it shares with `resolveSlugsToUIDs` of message_handler.go.
pub mod Replies
use Prim.Native.Char.{code}
use lfx_v2_persona_service.Prelude.{
  String, Bool, false, ◌||◌, same_num, ◌==◌, if◌then◌else◌, Option, none, some, ok, err,
}
use lfx_v2_persona_service.Json.{Bytes, text}
use lfx_v2_persona_service.Runtime.{Runtime, as_string}
use lfx_v2_persona_service.Text.{trim_space}
use lfx_v2_persona_service.Nats.{NatsClient, request}

-- `len(resp) > 0 && resp[0] == '{'`
unfoldable pub is_error_reply : String → Bool
is_error_reply String.[] = false
is_error_reply (String.◌∷◌ c s) = same_num (code c) b'{'

-- The text of a reply without its surrounding space, or nothing if it is empty or an error.
unfoldable pub reply_text : Runtime → Bytes → Option String
unfolding is_error_reply
reply_text rt resp =
    let reply = trim_space (as_string rt resp) in
    if reply == "" || is_error_reply (as_string rt resp) then none else some reply

module _ {Bucket : Type 0} (rt : Runtime) where
  unfoldable pub resolve_project_slug : Option (NatsClient Bucket) → String → String
  unfolding reply_text
  resolve_project_slug none uid = ""
  resolve_project_slug (some c) uid = elim (request c "lfx.projects-api.get_slug" (text uid)) [
    | err e ↦ ""
    | ok resp ↦ elim (reply_text rt resp) [ none ↦ "" | some slug ↦ slug ]
  ]
