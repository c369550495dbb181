-- ===== src/Service/Providers/Enabled.antt =====
-- Which sources a configuration turns on, for cmd/server/service/providers.go and `GetPersona`.
use mathlib.Core.Path.{ap₂}
use lfx_v2_persona_service.Prelude.{
  String, ◌==◌, Bool, true, false, not, ◌&&◌, ◌||◌, Option, none, some, List, [], ◌∷◌, ◌++◌, map,
  if◌then◌else◌, ◌≡◌, refl, ap, ◌∙◌, Error, Result, ok, err, wrapping, is_err, ◌>>=◌,
}
use lfx_v2_persona_service.Runtime.{Runtime}
use lfx_v2_persona_service.Model.{PersonaRequest}
use lfx_v2_persona_service.Config.{Config}
use lfx_v2_persona_service.Query.Client.{QueryClient}
use lfx_v2_persona_service.Cdp.Client.{CdpClient}
use lfx_v2_persona_service.Cdp.Auth.{
  KeyLibrary, TokenProviderConfig, decode_private_key, new_token_provider,
}
use lfx_v2_persona_service.Cdp.Cache.{KeyValue, Cache}
use lfx_v2_persona_service.Sources.Access.{Matches}
use lfx_v2_persona_service.Sources.CdpRoles.{Times, source_cdp_roles}
use lfx_v2_persona_service.Handler.{
  PersonaHandler, SourceResult, no_sources, with_handler_timeout, query_sources, sources,
}
use lfx_v2_persona_service.Service.Providers.{
  Platform, App, provider_config, new_query_client, new_cdp_client, with_query, with_cdp_roles,
  build_handler,
}

-- A key that the libraries can read.
abbrev pub is_usable_key : {Key : Type 0} → KeyLibrary Key → String → Bool
is_usable_key lib key = not (is_err (decode_private_key lib key))

-- A direct URL, or a gateway with its audience and with credentials of which the key is usable.
abbrev pub query_configured : {Key : Type 0} → KeyLibrary Key → Config → Bool
query_configured lib cfg =
    not (cfg.query_service_url == "")
    || ((not (cfg.lfx_base_url == "") && not (cfg.lfx_audience == ""))
        && (not (cfg.auth0_issuer_base_url == "")
            && (not (cfg.auth0_client_id == "")
                && (not (cfg.auth0_m2m_private_base64_key == "")
                    && is_usable_key lib cfg.auth0_m2m_private_base64_key))))

-- The credentials of the CDP, with a usable key.
abbrev pub cdp_configured : {Key : Type 0} → KeyLibrary Key → Config → Bool
cdp_configured lib cfg = cfg.cdp_enabled && is_usable_key lib cfg.auth0_m2m_private_base64_key

abbrev pub query_names : List String
query_names =
    "board_member+committee" ∷ "executive_director" ∷ "writer+auditor" ∷ "mailing_list"
    ∷ "meeting_attendance" ∷ []

abbrev pub is_client {ℓ} : {A : Type ℓ} → Result (Option A) → Bool
is_client (ok (some c)) = true
is_client (ok none) = false
is_client (err e) = false

gateway-is_client :
    {A B : Type 0} (r : Result A) (text : String) (f : A → B)
    → is_client (wrapping text r >>= λ a. ok (some (f a))) ≡ not (is_err r)
gateway-is_client (ok a) text f = refl
gateway-is_client (err e) text f = refl

bind-is_err : {A B : Type 0} (r : Result A) (f : A → B) → is_err (r >>= λ a. ok (f a)) ≡ is_err r
bind-is_err (ok a) f = refl
bind-is_err (err e) f = refl

selected-is_client :
    {C : Type 0} (url base audience issuer client key usable : Bool)
    (direct gateway : Result (Option C)) (missing : Error)
    → is_client direct ≡ true
    → is_client gateway ≡ usable
    → is_client (
        if not url
        then direct
        else if not base && not audience
        then (if issuer || client || key then err missing else gateway)
        else ok none)
      ≡ (not url
          || ((not base && not audience) && (not issuer && (not client && (not key && usable)))))
selected-is_client false base audience issuer client key usable direct gateway missing d g = d
selected-is_client true true audience issuer client key usable direct gateway missing d g = refl
selected-is_client true false true issuer client key usable direct gateway missing d g = refl
selected-is_client true false false true client key usable direct gateway missing d g = refl
selected-is_client true false false false true key usable direct gateway missing d g = refl
selected-is_client true false false false false true usable direct gateway missing d g = refl
selected-is_client true false false false false false usable direct gateway missing d g = g

wrapped-is_err :
    {A B : Type 0} (r : Result A) (text : String) (f : A → B)
    → is_err (wrapping text r >>= λ a. ok (f a)) ≡ is_err r
wrapped-is_err (ok a) text f = refl
wrapped-is_err (err e) text f = refl

abbrev gateway_config : Config → TokenProviderConfig
gateway_config cfg = provider_config cfg cfg.lfx_audience "access:api"

abbrev cdp_config : Config → TokenProviderConfig
cdp_config cfg =
    provider_config cfg cfg.cdp_audience
      "read:members read:project-affiliations read:maintainer-roles"

module _ {Bucket Key : Type 0} (p : Platform Bucket Key) where
  new_token_provider-is_err :
      (cfg : TokenProviderConfig)
      → is_err (new_token_provider p.keys cfg)
        ≡ is_err (decode_private_key p.keys cfg.private_key_base64)
  unfolding new_token_provider
  new_token_provider-is_err cfg = bind-is_err (decode_private_key p.keys cfg.private_key_base64) _

  pub new_query_client-is_client :
      (cfg : Config) → is_client (new_query_client p cfg) ≡ query_configured p.keys cfg
  unfolding new_query_client
  new_query_client-is_client cfg =
      selected-is_client (cfg.query_service_url == "") (cfg.lfx_base_url == "")
        (cfg.lfx_audience == "") (cfg.auth0_issuer_base_url == "") (cfg.auth0_client_id == "")
        (cfg.auth0_m2m_private_base64_key == "") _ _ _ _ refl
        (gateway-is_client (new_token_provider p.keys (gateway_config cfg))
            "create LFX token provider" _
          ∙ ap not (new_token_provider-is_err (gateway_config cfg)))

  cdp_client-is_err :
      (rt : Runtime) (S : KeyValue) (state : Bucket → S.State) (app : App Bucket)
      → is_err (new_cdp_client p rt S state app)
        ≡ is_err (decode_private_key p.keys app.app_config.auth0_m2m_private_base64_key)
  unfolding new_cdp_client
  cdp_client-is_err rt S state app =
      wrapped-is_err (new_token_provider p.keys (cdp_config app.app_config))
        "create CDP token provider" _
      ∙ new_token_provider-is_err (cdp_config app.app_config)

abbrev pub is_some {ℓ} : {A : Type ℓ} → Option A → Bool
is_some none = false
is_some (some a) = true

module _ {Bucket Key : Type 0} (p : Platform Bucket Key) (rt : Runtime) (S : KeyValue)
    (state : Bucket → S.State) where
  query-with_cdp_roles :
      (r : Result (CdpClient × Cache rt S)) (h : PersonaHandler rt S Bucket)
      → (with_cdp_roles p rt S state r h).query_client ≡ h.query_client
  unfolding with_cdp_roles
  query-with_cdp_roles (ok (client, cache)) h = refl
  query-with_cdp_roles (err e) h = refl

  pub nats-with_cdp_roles :
      (r : Result (CdpClient × Cache rt S)) (h : PersonaHandler rt S Bucket)
      → (with_cdp_roles p rt S state r h).nats_client ≡ h.nats_client
  unfolding with_cdp_roles
  nats-with_cdp_roles (ok (client, cache)) h = refl
  nats-with_cdp_roles (err e) h = refl

  cdp-with_cdp_roles :
      (r : Result (CdpClient × Cache rt S)) (h : PersonaHandler rt S Bucket)
      → h.cdp_client ≡ none
      → is_some (with_cdp_roles p rt S state r h).cdp_client ≡ not (is_err r)
  unfolding with_cdp_roles
  cdp-with_cdp_roles (ok (client, cache)) h e = refl
  cdp-with_cdp_roles (err f) h e = rw e refl

  query-with_query :
      (app : App Bucket) (r : Result (Option QueryClient)) (h : PersonaHandler rt S Bucket)
      → h.query_client ≡ none
      → is_some (with_query p rt S state app r h).query_client ≡ is_client r
  unfolding with_query
  query-with_query app (ok (some client)) h e = refl
  query-with_query app (ok none) h e = rw e refl
  query-with_query app (err f) h e = rw e refl

  cdp-with_query :
      (app : App Bucket) (r : Result (Option QueryClient)) (h : PersonaHandler rt S Bucket)
      → (with_query p rt S state app r h).cdp_client ≡ h.cdp_client
  unfolding with_query
  cdp-with_query app (ok (some client)) h = refl
  cdp-with_query app (ok none) h = refl
  cdp-with_query app (err f) h = refl

  -- The handler before the CDP is added.
  abbrev pub queried : App Bucket → PersonaHandler rt S Bucket
  queried app =
      with_query p rt S state app (new_query_client p app.app_config)
        (with_handler_timeout rt S Bucket app.app_config.handler_timeout (no_sources rt S Bucket))

  query-queried :
      (app : App Bucket)
      → is_some (queried app).query_client ≡ query_configured p.keys app.app_config
  unfolding with_handler_timeout
  query-queried app =
      query-with_query app (new_query_client p app.app_config) _ refl
      ∙ new_query_client-is_client p app.app_config

  query_added :
      (b : Bool) (r : Result (CdpClient × Cache rt S)) (h : PersonaHandler rt S Bucket)
      → (if b then with_cdp_roles p rt S state r h else h).query_client ≡ h.query_client
  query_added true r h = query-with_cdp_roles r h
  query_added false r h = refl

  pub nats_added :
      (b : Bool) (r : Result (CdpClient × Cache rt S)) (h : PersonaHandler rt S Bucket)
      → (if b then with_cdp_roles p rt S state r h else h).nats_client ≡ h.nats_client
  nats_added true r h = nats-with_cdp_roles r h
  nats_added false r h = refl

  cdp_added :
      (b : Bool) (r : Result (CdpClient × Cache rt S)) (h : PersonaHandler rt S Bucket)
      → h.cdp_client ≡ none
      → is_some (if b then with_cdp_roles p rt S state r h else h).cdp_client
        ≡ (b && not (is_err r))
  cdp_added true r h e = cdp-with_cdp_roles r h e
  cdp_added false r h e = rw e refl

  pub query-build_handler :
      (app : App Bucket)
      → is_some (build_handler p rt S state app).query_client
        ≡ query_configured p.keys app.app_config
  unfolding build_handler
  query-build_handler app =
      ap is_some
        (query_added app.app_config.cdp_enabled (new_cdp_client p rt S state app) (queried app))
      ∙ query-queried app

  cdp-build_handler :
      (app : App Bucket)
      → is_some (build_handler p rt S state app).cdp_client ≡ cdp_configured p.keys app.app_config
  unfolding build_handler with_handler_timeout
  cdp-build_handler app =
      cdp_added app.app_config.cdp_enabled (new_cdp_client p rt S state app) (queried app)
        (cdp-with_query app (new_query_client p app.app_config) _)
      ∙ ap (λ b. app.app_config.cdp_enabled && not b) (cdp_client-is_err p rt S state app)

module _ (rt : Runtime) (S : KeyValue) (Bucket : Type 0) (order : Matches → Matches) (t : Times)
    (req : PersonaRequest) where
  names_of : List SourceResult → List String
  names_of = map (λ r. r.name)

  -- The names of the sources that a handler starts.
  names-sources :
      (h : PersonaHandler rt S Bucket)
      → names_of (sources rt S Bucket order t h req)
        ≡ (if is_some h.query_client then query_names else [])
          ++ (if is_some h.cdp_client then "cdp_roles" ∷ [] else [])
  unfolding sources query_sources names_of
  names-sources h = listed h.query_client h.cdp_client
    where
      listed :
          (q : Option QueryClient) (c : Option CdpClient)
          → map
              (λ r. r.name)
              (elim q [ none ↦ [] | some client ↦ query_sources rt S Bucket order t h client req ]
                ++ elim c [
                  | none ↦ []
                  | some client ↦
                      record {
                        name = "cdp_roles";
                        result =
                            (source_cdp_roles rt S h.nats_client client t req h.cdp_cache).result;
                      }
                      ∷ []
                ])
            ≡ (if is_some q then query_names else [])
              ++ (if is_some c then "cdp_roles" ∷ [] else [])
      listed none none = refl
      listed none (some d) = refl
      listed (some q) none = refl
      listed (some q) (some d) = refl

-- The handler of a configuration starts the five sources of the Query Service just when a direct URL is
-- set, or else a gateway with its audience, its credentials and a usable key; and the CDP source just
-- when the CDP is enabled and its key is usable.
pub names-build_handler :
    {Bucket Key : Type 0} (p : Platform Bucket Key) (rt : Runtime) (S : KeyValue)
    (state : Bucket → S.State) (order : Matches → Matches) (t : Times) (req : PersonaRequest)
    (app : App Bucket)
    → map (λ r. r.name) (sources rt S Bucket order t (build_handler p rt S state app) req)
      ≡ (if query_configured p.keys app.app_config then query_names else [])
        ++ (if cdp_configured p.keys app.app_config then "cdp_roles" ∷ [] else [])
unfolding names_of
names-build_handler {Bucket} p rt S state order t req app =
    names-sources rt S Bucket order t req (build_handler p rt S state app)
    ∙ ap₂ (λ (q c : Bool). (if q then query_names else []) ++ (if c then "cdp_roles" ∷ [] else []))
        (query-build_handler p rt S state app) (cdp-build_handler p rt S state app)
