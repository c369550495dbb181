-- ===== src/Config.antt =====
-- internal/config/config.go, over the environment of the process and the duration parser of Go.
pub mod Laws
use lfx_v2_persona_service.Prelude.{
  ℕ, ◌*◌, ◌^◌, String, ◌==◌, Bool, not, ◌&&◌, Option, none, some, if◌then◌else◌, leb,
}
use lfx_v2_persona_service.Constants.{
  nats_url_env_key, query_service_url_env_key, handler_timeout_env_key, lfx_base_url_env_key,
  lfx_audience_env_key, auth0_issuer_base_url_env_key, auth0_client_id_env_key,
  auth0_m2m_private_base64_key_env_key, cdp_audience_env_key, cdp_base_url_env_key,
}
use lfx_v2_persona_service.Json.{ℤ, pos, negsuc}

-- `os.Getenv`: the value of a variable, empty when it is not set.
abbrev pub Environment : Type 0
Environment = String → String

-- Durations are nanoseconds.
pub record Config : Type 0 where
  pub nats_url : String
  pub query_service_url : String
  pub lfx_base_url : String
  pub lfx_audience : String
  pub cdp_enabled : Bool
  pub auth0_issuer_base_url : String
  pub auth0_client_id : String
  pub auth0_m2m_private_base64_key : String
  pub cdp_audience : String
  pub cdp_base_url : String
  pub handler_timeout : ℕ

unfoldable pub env_or_default : Environment → String → String → String
env_or_default env key fallback = if env key == "" then fallback else env key

-- What `time.ParseDuration` gave: an error or a duration that is not positive is the fallback.
unfoldable pub positive_or : ℕ → Option ℤ → ℕ
positive_or fallback none = fallback
positive_or fallback (some (pos d)) = if leb d 0 then fallback else d
positive_or fallback (some (negsuc d)) = fallback

-- `parse` is `time.ParseDuration`, with no value for an error.
unfoldable pub parse_duration_env : Environment → (String → Option ℤ) → String → ℕ → ℕ
unfolding positive_or
parse_duration_env env parse key fallback =
    if env key == "" then fallback else positive_or fallback (parse (env key))

-- Four seconds.
abbrev pub default_timeout : ℕ
default_timeout = 4 * 10 ^ 9

unfoldable pub load : Environment → (String → Option ℤ) → Config
unfolding env_or_default parse_duration_env
load env parse =
    let issuer = env auth0_issuer_base_url_env_key in
    let client_id = env auth0_client_id_env_key in
    let key = env auth0_m2m_private_base64_key_env_key in
    let audience = env cdp_audience_env_key in
    let base_url = env cdp_base_url_env_key in
    record {
      nats_url = env_or_default env nats_url_env_key "nats://localhost:4222";
      query_service_url = env query_service_url_env_key;
      lfx_base_url = env lfx_base_url_env_key;
      lfx_audience = env lfx_audience_env_key;
      cdp_enabled =
          not (issuer == "")
          && not (client_id == "")
          && not (key == "")
          && not (audience == "")
          && not (base_url == "");
      auth0_issuer_base_url = issuer;
      auth0_client_id = client_id;
      auth0_m2m_private_base64_key = key;
      cdp_audience = audience;
      cdp_base_url = base_url;
      handler_timeout = parse_duration_env env parse handler_timeout_env_key default_timeout;
    }
