-- ===== src/Constants.antt =====
-- pkg/constants: the subject, the queue and the bucket of the service, and the names of its variables in
-- the environment.
use lfx_v2_persona_service.Prelude.{String}

abbrev pub persona_get_subject : String
persona_get_subject = "lfx.personas-api.get"

abbrev pub persona_service_queue : String
persona_service_queue = "lfx.personas-api.queue"

-- `KVBucketNamePersonaCache`
abbrev pub persona_cache_bucket : String
persona_cache_bucket = "persona-cache"

abbrev pub nats_url_env_key : String
nats_url_env_key = "NATS_URL"

abbrev pub query_service_url_env_key : String
query_service_url_env_key = "QUERY_SERVICE_URL"

abbrev pub handler_timeout_env_key : String
handler_timeout_env_key = "PERSONA_HANDLER_TIMEOUT"

abbrev pub lfx_base_url_env_key : String
lfx_base_url_env_key = "LFX_BASE_URL"

abbrev pub lfx_audience_env_key : String
lfx_audience_env_key = "LFX_AUDIENCE"

abbrev pub auth0_issuer_base_url_env_key : String
auth0_issuer_base_url_env_key = "AUTH0_ISSUER_BASE_URL"

abbrev pub auth0_client_id_env_key : String
auth0_client_id_env_key = "AUTH0_CLIENT_ID"

abbrev pub auth0_m2m_private_base64_key_env_key : String
auth0_m2m_private_base64_key_env_key = "AUTH0_M2M_PRIVATE_BASE64_KEY"

abbrev pub cdp_audience_env_key : String
cdp_audience_env_key = "CDP_AUDIENCE"

abbrev pub cdp_base_url_env_key : String
cdp_base_url_env_key = "CDP_BASE_URL"
