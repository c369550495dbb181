-- ===== src/Service/Providers.antt =====
-- cmd/server/service/providers.go: the clients and the handler that a configuration gives.
pub mod Enabled
pub mod Isolated
use lfx_v2_persona_service.Prelude.{
  ℕ, String, ◌<>◌, ◌==◌, Bool, not, ◌&&◌, ◌||◌, Option, none, some, List, if◌then◌else◌, Error,
  message, Result, ok, err, wrapping, ◌>>=◌,
}
use mathlib.Core.Option
use lfx_v2_persona_service.Json.{ℤ}
use lfx_v2_persona_service.Transport.{HttpClient}
use lfx_v2_persona_service.Runtime.{Runtime}
use lfx_v2_persona_service.Config.{Environment, Config, env_or_default, load}
use lfx_v2_persona_service.Nats.{Conn, NatsClient, key_value_store, get_kv_store, subscribe}
use lfx_v2_persona_service.Nats as NatsClients
use lfx_v2_persona_service.Query.Client.{QueryClient, SearchRequest, HttpResponse}
use lfx_v2_persona_service.Query.Client as Query
use lfx_v2_persona_service.Cdp.Client.{CdpClient, CdpRequest}
use lfx_v2_persona_service.Cdp.Client as Cdp
use lfx_v2_persona_service.Cdp.Auth.{
  KeyLibrary, TokenProviderConfig, AssertionTokenSource, new_token_provider,
}
use lfx_v2_persona_service.Cdp.Cache.{KeyValue, Cache}
use lfx_v2_persona_service.Handler.{
  PersonaHandler, no_sources, with_cdp, with_query_service, with_handler_timeout,
}
use lfx_v2_persona_service.Constants.{
  persona_get_subject, persona_service_queue, persona_cache_bucket,
}

-- The libraries that the start-up calls: the parsers of durations and integers, with no value for an
-- error; nats.go and JetStream; the key and token libraries; and the transports.
pub record Platform (Bucket Key : Type 0) : Type 0 where
  pub parse_duration : String → Option ℤ
  pub atoi : String → Option ℤ
  pub connect : NatsClients.Config → Result Conn
  pub open_bucket : String → Result Bucket
  pub keys : KeyLibrary Key
  pub token : AssertionTokenSource Key → Result String
  pub parse_url : String → Result String
  pub send_search : HttpClient → SearchRequest → Result HttpResponse
  pub send_cdp : HttpClient → CdpRequest → Result HttpResponse

-- The variables of the package after `natsInit`.
pub record App (Bucket : Type 0) : Type 0 where
  pub nats_client : NatsClient Bucket
  pub app_config : Config

-- `log.Fatalf`, without the text of the library's error.
abbrev or_fatal {ℓ} : {A : Type ℓ} → String → Option A → Result A
or_fatal text none = err (message text)
or_fatal text (some a) = ok a

-- The configuration of a token provider for an audience.
abbrev pub provider_config : Config → String → String → TokenProviderConfig
provider_config cfg audience scopes = record {
  issuer_base_url = cfg.auth0_issuer_base_url;
  client_id = cfg.auth0_client_id;
  audience = audience;
  scopes = scopes;
  private_key_base64 = cfg.auth0_m2m_private_base64_key;
}

module _ {Bucket Key : Type 0} (p : Platform Bucket Key) where
  -- A bucket that cannot be opened leaves the client as it is.
  open_cache : NatsClient Bucket → NatsClient Bucket
  unfolding key_value_store
  open_cache client =
      elim (key_value_store client persona_cache_bucket (p.open_bucket persona_cache_bucket)) [
        | ok opened ↦ opened
        | err e ↦ client
      ]

  -- `natsInit`; an error is the end of the process.
  unfoldable pub nats_init : Environment → Result (App Bucket)
  unfolding load env_or_default open_cache NatsClients.new_client
  nats_init env = do
    let cfg = load env p.parse_duration
    timeout ←
        or_fatal "invalid NATS timeout duration"
          (p.parse_duration (env_or_default env "NATS_TIMEOUT" "10s"))
    max_reconnect ←
        or_fatal "invalid NATS max reconnect value"
          (p.atoi (env_or_default env "NATS_MAX_RECONNECT" "3"))
    reconnect_wait ←
        or_fatal "invalid NATS reconnect wait duration"
          (p.parse_duration (env_or_default env "NATS_RECONNECT_WAIT" "2s"))
    client ← wrapping "failed to create NATS client" (
        NatsClients.new_client p.connect (record {
          url = cfg.nats_url;
          timeout = timeout;
          max_reconnect = max_reconnect;
          reconnect_wait = reconnect_wait;
        }))
    ok (record { nats_client = open_cache client; app_config = cfg })

  -- Nothing without a URL; an error for a gateway whose credentials or key are not usable.
  unfoldable pub new_query_client : Config → Result (Option QueryClient)
  unfolding new_token_provider Query.new_client
  new_query_client cfg =
      if not (cfg.query_service_url == "")
      then ok (
          some (
            Query.new_client p.parse_url p.send_search
              (record { base_url = cfg.query_service_url; token_func = none; http_client = none })))
      else if not (cfg.lfx_base_url == "") && not (cfg.lfx_audience == "")
      then (if cfg.auth0_issuer_base_url == ""
            || cfg.auth0_client_id == ""
            || cfg.auth0_m2m_private_base64_key == ""
          then err (
              message
                "LFX_BASE_URL set but Auth0 credentials missing (need AUTH0_ISSUER_BASE_URL, AUTH0_CLIENT_ID, AUTH0_M2M_PRIVATE_BASE64_KEY)")
          else wrapping "create LFX token provider"
              (new_token_provider p.keys (provider_config cfg cfg.lfx_audience "access:api"))
            >>= λ prov. ok (
                some (
                  Query.new_client p.parse_url p.send_search (record {
                    base_url = cfg.lfx_base_url;
                    token_func = some (p.token prov);
                    http_client = none;
                  }))))
      else ok none

  module _ (rt : Runtime) (S : KeyValue) (state : Bucket → S.State) where
    -- The client of the CDP and its cache, over the bucket if it was opened.
    unfoldable pub new_cdp_client : App Bucket → Result (CdpClient × Cache rt S)
    unfolding new_token_provider Cdp.new_client get_kv_store
    new_cdp_client app =
        wrapping "create CDP token provider" (
          new_token_provider p.keys (
            provider_config app.app_config app.app_config.cdp_audience
              "read:members read:project-affiliations read:maintainer-roles"))
        >>= λ prov. ok (
          Cdp.new_client p.parse_url p.send_cdp (record {
            base_url = app.app_config.cdp_base_url;
            token_prov = p.token prov;
            http_client = none;
          }),
          Option.map state (get_kv_store app.nats_client persona_cache_bucket),
        )

    unfoldable pub with_query :
        App Bucket
        → Result (Option QueryClient)
        → PersonaHandler rt S Bucket
        → PersonaHandler rt S Bucket
    unfolding with_query_service
    with_query app (err e) h = h
    with_query app (ok none) h = h
    with_query app (ok (some client)) h =
        with_query_service rt S Bucket client (some app.nats_client) h

    unfoldable pub with_cdp_roles :
        Result (CdpClient × Cache rt S) → PersonaHandler rt S Bucket → PersonaHandler rt S Bucket
    unfolding with_cdp
    with_cdp_roles (err e) h = h
    with_cdp_roles (ok (client, cache)) h = with_cdp rt S Bucket client cache h

    -- The handler of the options that the configuration gives.
    unfoldable pub build_handler : App Bucket → PersonaHandler rt S Bucket
    unfolding with_query with_cdp_roles with_handler_timeout new_query_client new_cdp_client
    build_handler app =
        let timed =
          with_handler_timeout rt S Bucket app.app_config.handler_timeout
            (no_sources rt S Bucket) in
        let queried = with_query app (new_query_client app.app_config) timed in
        if app.app_config.cdp_enabled then with_cdp_roles (new_cdp_client app) queried else queried

    -- `QueueSubscriptions` after `natsInit`: the handler that messages are given to.
    unfoldable pub queue_subscriptions : App Bucket → Result (PersonaHandler rt S Bucket)
    unfolding build_handler subscribe
    queue_subscriptions app =
        wrapping ("failed to subscribe to subject " <> persona_get_subject)
          (subscribe app.nats_client persona_get_subject persona_service_queue)
        >>= λ _. ok (build_handler app)
