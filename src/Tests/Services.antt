-- ===== src/Tests/Services.antt =====
-- The routing of messages, and handlers that configurations give.
use Prim.Native.Char.{Char, code}
use mathlib.Core.Path.{ap₂}
use mathlib.Core.List.Permᴰ as PermD
use lfx_v2_persona_service.Constants.{persona_get_subject}
use text.Mathlib.TextEquality.{Char-path}
use lfx_v2_persona_service.Text.{trim_space, trim_left, trim_right}
use lfx_v2_persona_service.Prelude.{
  ℕ, String, Bool, true, false, Bool-cases, inl, inr, none, some, [], ◌∷◌, elements, if◌then◌else◌,
  same_num, ◌≡◌, refl, sym, arith, starts_with, Result, ok, err, message, ap, map,
}
use lfx_v2_persona_service.Json.{Json, Fields, Bytes, document, pos}
use lfx_v2_persona_service.Model.Wire.{encode_response}
use lfx_v2_persona_service.Model.Detections.{detections_of}
use lfx_v2_persona_service.Config.{Config}
use lfx_v2_persona_service.Cdp.Auth.{KeyLibrary, decode_private_key}
use lfx_v2_persona_service.Cdp.Auth.Keys.{decode_private_key_encoded}
use lfx_v2_persona_service.Handler.{PersonaHandler, no_sources, sources}
use lfx_v2_persona_service.Handler.Answers.{GetPersona-total}
use lfx_v2_persona_service.Nats.Messages.{Message}
use lfx_v2_persona_service.Service.Providers.{Platform, App, build_handler}
use lfx_v2_persona_service.Service.Providers.Enabled.{names-build_handler}
use lfx_v2_persona_service.Service.Providers.Isolated.{GetPersona-detections}
use lfx_v2_persona_service.Tests.Samples.{ascii, memory, ada, times, project_service}
use lfx_v2_persona_service.Username.Filters.{has}

-- An encoding without hyphens: `a` is an escape.
abbrev is_code : Char → ℕ → Bool
is_code c n = same_num (code c) n

unfoldable encode : String → String
encode String.[] = ""
encode (String.◌∷◌ c s) =
    let rest = encode s in
    if is_code c b'-'
    then String.◌∷◌ "a" (String.◌∷◌ "b" rest)
    else if is_code c b'a'
    then String.◌∷◌ "a" (String.◌∷◌ "a" rest)
    else String.◌∷◌ c rest

unfoldable decode : Bool → String → String
decode escaped String.[] = ""
decode true (String.◌∷◌ c s) =
    if is_code c b'b' then String.◌∷◌ "-" (decode false s) else String.◌∷◌ "a" (decode false s)
decode false (String.◌∷◌ c s) =
    let escape = decode true s in
    let plain = String.◌∷◌ c (decode false s) in if is_code c b'a' then escape else plain

char_of_code : (c d : Char) → is_code c (code d) ≡ true → d ≡ c
char_of_code c d e = let same : code c ≡ code d = ground (arith, e) in sym (Char-path c d same)

decode-encode : (s : String) → decode false (encode s) ≡ s
unfolding decode encode
decode-encode String.[] = refl
decode-encode (String.◌∷◌ c s) = elim (Bool-cases (is_code c b'-')) [
  | inl e ↦ rw e (ap₂ String.◌∷◌ (char_of_code c "-" e) (decode-encode s))
  | inr e ↦ elim (Bool-cases (is_code c b'a')) [
    | inl f ↦ rw (e, f) (ap₂ String.◌∷◌ (char_of_code c "a" f) (decode-encode s))
    | inr f ↦ rw (e, f, f) (ap (String.◌∷◌ c) (decode-encode s))
  ]
]

has-encode : (s : String) → has b'-' (encode s) ≡ false
unfolding has encode
has-encode String.[] = refl
has-encode (String.◌∷◌ c s) = ground (arith, has-encode s)

-- A key is its text.
abbrev text_keys : KeyLibrary String
text_keys = record {
  decode_base64 = λ s. ok (decode false s);
  decode_pem = λ s.
      if starts_with s "-----BEGIN"
      then some (record { kind = "RSA PRIVATE KEY"; content = s })
      else none;
  parse_pkcs1 = λ s. ok s;
  parse_pkcs8 = λ s. ok none;
}

decode_private_key_encoded_example :
    decode_private_key text_keys (encode "-----BEGIN KEY-----")
    ≡ decode_private_key text_keys "-----BEGIN KEY-----"
unfolding trim_space trim_left trim_right
decode_private_key_encoded_example =
    decode_private_key_encoded text_keys encode (λ s. ap ok (decode-encode s)) has-encode
      "-----BEGIN KEY-----" refl

abbrev bare : PersonaHandler ascii memory Unit
bare = no_sources ascii memory Unit

reply_of : Message → Result Bytes
reply_of msg = ok (
    document
      (encode_response (GetPersona-total ascii memory Unit (λ m. m) times bare msg.payload).0))

abbrev asked : Message
asked = record { subject = persona_get_subject; payload = Bytes.text "" }

-- A direct URL, and a CDP whose key is readable.
abbrev both_set : Config
both_set = record {
  nats_url = "nats://nats:4222";
  query_service_url = "https://query";
  lfx_base_url = "";
  lfx_audience = "";
  cdp_enabled = true;
  auth0_issuer_base_url = "https://auth";
  auth0_client_id = "id";
  auth0_m2m_private_base64_key = "-----BEGIN KEY-----";
  cdp_audience = "cdp";
  cdp_base_url = "https://cdp";
  handler_timeout = 10;
}

abbrev platform : Platform Unit String
platform = record {
  parse_duration = λ s. some (pos 10);
  atoi = λ s. some (pos 3);
  connect = λ c. err (message "no servers available");
  open_bucket = λ name. ok tt;
  keys = text_keys;
  token = λ s. ok "t";
  parse_url = λ u. ok u;
  send_search = λ c r. err (message "connection refused");
  send_cdp = λ c r. err (message "connection refused");
}

abbrev app_of : Config → App Unit
app_of cfg = record { nats_client = project_service; app_config = cfg }

names-build_handler_example :
    map
      (λ r. r.name)
      (sources ascii memory Unit
        (λ m. m)
        times
        (build_handler platform ascii memory (λ b. []) (app_of both_set))
        ada)
    ≡ "board_member+committee" ∷ "executive_director" ∷ "writer+auditor" ∷ "mailing_list"
      ∷ "meeting_attendance" ∷ "cdp_roles" ∷ []
unfolding decode_private_key trim_space trim_left trim_right
names-build_handler_example =
    names-build_handler platform ascii memory (λ b. []) (λ m. m) times ada (app_of both_set)

-- The CDP alone.
abbrev cdp_only : App Unit
cdp_only = app_of (record both_set { query_service_url = "" })

abbrev ada_body : Bytes
ada_body = document (
    Json.obj (
      Fields.field "username" (Json.str "ada")
        (Fields.field "email" (Json.str "ada@example.org") Fields.end)))

GetPersona-detections_example :
    let resp =
      (GetPersona-total ascii memory Unit
        (λ m. m)
        times
        (build_handler platform ascii memory (λ b. []) cdp_only)
        ada_body).0 in
    detections_of "u1" (elements resp.projects) ≡ []
unfolding decode_private_key trim_space
GetPersona-detections_example =
    let (resp, given) =
      GetPersona-total ascii memory Unit (λ m. m) times
        (build_handler platform ascii memory (λ b. []) cdp_only) ada_body in
    GetPersona-detections platform ascii memory (λ b. []) cdp_only refl (λ m. m) times ada_body resp
      given "u1"
