-- ===== src/Tests/Samples.antt =====
-- A runtime, a bucket in memory, clients with fixed answers, and data for the tests.
use lfx_v2_persona_service.Prelude.{
  ℕ, ◌*◌, ◌^◌, String, ◌==◌, Bool, true, false, Option, none, some, List, [], ◌∷◌, Slice, lookup,
  if◌then◌else◌, ◌≡◌, refl, Result, ok, err, message,
}
use lfx_v2_persona_service.Json.{Json, Fields, Bytes, pos}
use lfx_v2_persona_service.Runtime.{Runtime}
use lfx_v2_persona_service.Nats.{NatsClient}
use lfx_v2_persona_service.Model.{PersonaRequest, Project, Detection}
use lfx_v2_persona_service.Query.{Resource}
use lfx_v2_persona_service.Query.Client.{HttpResponse}
use lfx_v2_persona_service.Cdp.{ProjectAffiliation}
use lfx_v2_persona_service.Cdp.Wire.{encode_affiliation}
use lfx_v2_persona_service.Json.Encode.{encode_slice}
use lfx_v2_persona_service.Cdp.Client.{CdpClient}
use lfx_v2_persona_service.Cdp.Cache.{KeyValue, IsLawful, Entry, Lookup, lookup_of}
use lfx_v2_persona_service.Sources.CdpRoles.{Times}

-- ASCII texts only, and no text that is JSON.
abbrev pub ascii : Runtime
ascii = record {
  lower_rune = λ c. c;
  same_fold = λ c d. false;
  parse_json = λ s. none;
  print_json = λ v. "";
}

-- A day, in nanoseconds: how long an entry lives.
abbrev pub day : ℕ
day = 86400 * 10 ^ 9

abbrev look_up : ℕ → Option Entry → Lookup
look_up now none = Lookup.key_not_found
look_up now (some e) = lookup_of day now e

-- A bucket in which an entry lives for a day; a lookup finds the latest.
abbrev pub memory : KeyValue
memory = record {
  State = List (String × Entry);
  get = λ s now k. look_up now (lookup k s);
  put = λ s now k v. ((k, record { value = v; created = now }) ∷ s, none);
}

look_up-put :
    (b : Bool) (now : ℕ) (e : Entry) (o : Option Entry)
    → look_up now (if b then some e else o) ≡ (if b then lookup_of day now e else look_up now o)
look_up-put true now e o = refl
look_up-put false now e o = refl

pub memory-IsLawful : IsLawful memory day
memory-IsLawful = record {
  get-put = λ s now later k v j _.
      look_up-put (k == j) later (record { value = v; created = now }) (lookup j s);
}

abbrev pub ada : PersonaRequest
ada = record { username = "ada"; email = "ada@example.org" }

abbrev pub seen_by : String → Detection
seen_by token = record { source = token; extra = none }

abbrev pub project : String → String → String → Project
project uid slug token = record {
  project_uid = uid;
  project_slug = slug;
  detections = seen_by token ∷ [];
}

abbrev pub resource : String → Resource
resource id = record { id = id; kind = "project"; slug = ""; fields = none; tags = none }

abbrev pub kernel_affiliation : ProjectAffiliation
kernel_affiliation = record {
  id = "a1";
  project_slug = "kernel";
  project_logo = "";
  project_name = "Linux Kernel";
  contribution_count = pos 7;
  roles = none;
  affiliations = none;
}

abbrev pub affiliations : Slice ProjectAffiliation
affiliations = some (kernel_affiliation ∷ [])

abbrev answer : Bytes → Result HttpResponse
answer body = ok (record { status_code = 200; body = ok body })

abbrev member_document : Bytes
member_document = Bytes.document (Json.obj (Fields.field "memberId" (Json.str "m1") Fields.end))

abbrev affiliations_document : Bytes
affiliations_document = Bytes.document (
    Json.obj (
      Fields.field "projectAffiliations" (encode_slice encode_affiliation affiliations) Fields.end))

-- Knows one member, with one affiliation.
abbrev pub cdp : CdpClient
cdp = record {
  base_url = "https://cdp";
  parse_url = λ u. ok u;
  token = ok "t";
  send = λ r. if r.method == "POST" then answer member_document else answer affiliations_document;
}

abbrev pub cdp_down : CdpClient
cdp_down = record cdp { send = λ r. err (message "connection refused") }

-- Resolves each slug to one UID.
abbrev pub project_service : NatsClient Unit
project_service = record {
  conn = some (record {
    is_connected = true;
    is_draining = false;
    request_msg = λ subject body. ok (Bytes.text "uid-kernel");
    queue_subscribe = λ subject queue. none;
  });
  kv_store = [];
}

-- One reading of the clock for each step, a second apart.
abbrev pub times : Times
times = record { member_lookup = 0; member_put = 1; affiliations_lookup = 1; affiliations_put = 2 }
