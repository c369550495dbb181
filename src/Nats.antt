-- ===== src/Nats.antt =====
-- internal/infrastructure/nats: the client of client.go, with readiness, requests, subscriptions and the
-- key-value buckets, over the connection of nats.go.
pub mod Headers
pub mod Messages
use lfx_v2_persona_service.Prelude.{
  ℕ, String, ◌==◌, Bool, not, ◌||◌, Option, none, some, List, [], ◌∷◌, lookup, if◌then◌else◌,
  Result, Error, ok, err, ◌>>=◌,
}
use mathlib.Core.Option
use lfx_v2_persona_service.Json.{ℤ, Bytes}
use lfx_v2_persona_service.Errors.{app_error, error_text, new_unexpected, new_service_unavailable}

-- The connection of nats.go: its state, the reply of the server to a request, and what it answers to a
-- subscription to a subject by a queue group.
pub record Conn : Type 0 where
  pub is_connected : Bool
  pub is_draining : Bool
  pub request_msg : String → Bytes → Result Bytes
  pub queue_subscribe : String → String → Option String

-- Durations are nanoseconds, of either sign.
pub record Config : Type 0 where
  pub url : String
  pub timeout : ℤ
  pub max_reconnect : ℤ
  pub reconnect_wait : ℤ

-- The buckets opened so far, by name; `Bucket` is a handle of JetStream.
pub record NatsClient (Bucket : Type 0) : Type 0 where
  pub conn : Option Conn
  pub kv_store : List (String × Bucket)

module _ {Bucket : Type 0} where
  unfoldable pub is_ready : NatsClient Bucket → Result Conn
  is_ready c = elim c.conn [
    | none ↦
        err
          (app_error (new_service_unavailable "NATS client is not initialized or not connected" []))
    | some conn ↦
        if not conn.is_connected || conn.is_draining
        then err (
            app_error (
              new_service_unavailable
                "NATS client is not ready, connection is not established or is draining" []))
        else ok conn
  ]

  unfoldable pub request : NatsClient Bucket → String → Bytes → Result Bytes
  unfolding is_ready
  request c subject body = do conn ← is_ready c; conn.request_msg subject body

  -- `KeyValueStore`: the handle is what JetStream answers for the bucket.
  unfoldable pub key_value_store :
      NatsClient Bucket → String → Result Bucket → Result (NatsClient Bucket)
  key_value_store c name answer = do
    bucket ← answer
    ok (record c { kv_store = (name, bucket) ∷ c.kv_store })

  unfoldable pub get_kv_store : NatsClient Bucket → String → Option Bucket
  get_kv_store c name = lookup name c.kv_store

  -- `NewClient`: `connect` is `nats.Connect` with the options of the configuration.
  unfoldable pub new_client : (Config → Result Conn) → Config → Result (NatsClient Bucket)
  new_client connect config =
      if config.url == ""
      then err (app_error (new_unexpected "NATS URL is required" []))
      else elim (connect config) [
        | err e ↦ err (
            app_error
              (new_service_unavailable "failed to connect to NATS" (some (error_text e) ∷ [])))
        | ok conn ↦ ok (record { conn = some conn; kv_store = [] })
      ]

  -- `Close`: `closed` is the connection after nats.go has closed it.
  unfoldable pub close : (Conn → Conn) → NatsClient Bucket → NatsClient Bucket
  close closed c = record c { conn = Option.map closed c.conn }

  -- `SubscribeWithTransportMessenger`: the error, if any.
  unfoldable pub subscribe : NatsClient Bucket → String → String → Result (Unit {0})
  unfolding is_ready
  subscribe c subject queue = do
    conn ← is_ready c
    elim (conn.queue_subscribe subject queue) [ none ↦ ok tt | some e ↦ err (Error.message e) ]
