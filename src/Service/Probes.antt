-- ===== src/Service/Probes.antt =====
-- The answers of the HTTP server of cmd/server/http.go to the probes of Kubernetes.
use mathlib.Core.List.{Memᴰ}
use lfx_v2_persona_service.Prelude.{
  ℕ, String, Bool, true, false, not, ◌&&◌, Option, none, some, Option-cases, Bool-cases, inl, inr,
  ◌||◌, if◌then◌else◌, ◌≡◌, refl, ap, ◌∙◌, arith, Result, ok, err, wrapping, ◌>>=◌, is_err,
}
use lfx_v2_persona_service.Http.{Writer, Request, Handler, Encoding, Muxer, new_endpoints}
use lfx_v2_persona_service.Http.Server.{as_namer, handle_failure, mount, new_server}
use lfx_v2_persona_service.Http.Contracts.{status_of, IsRouter, IsEncoding}
use lfx_v2_persona_service.Http.Replies.{IsSettled}
use lfx_v2_persona_service.Http.Design.{livez_method, readyz_method}
use lfx_v2_persona_service.Http.Design.Conformance.{error_status, designed_status, serve-design}
use lfx_v2_persona_service.Errors.{app_error}
use lfx_v2_persona_service.Nats.{NatsClient, is_ready}
use lfx_v2_persona_service.Service.Health.{PersonaService, livez, readyz}
use lfx_v2_persona_service.Service.Listen.{
  Middleware, error_handler, health_service, handle_http_server,
}

-- The handlers around the router add traces and logs, and answer as the handler that they wrap.
pub record IsTransparent {M : Type 0} (mw : Middleware M) : Type 0 where
  pub debug : (h : Handler) (r : Request) (w : Writer) → mw.debug_http h r w ≡ h r w
  pub otel :
      (name : String) (h : Handler) (r : Request) (w : Writer) → mw.otel_handler name h r w ≡ h r w

pub data Probe : Type 0 where
  liveness readiness : Probe

abbrev pub probe_path : Probe → String
probe_path liveness = "/livez"
probe_path readiness = "/readyz"

-- The client has a connection that is there and not being closed.
abbrev pub is_up : {Bucket : Type 0} → NatsClient Bucket → Bool
is_up c = elim c.conn [ none ↦ false | some conn ↦ conn.is_connected && not conn.is_draining ]

-- The status that a health service gives to a probe.
abbrev pub probe_status : {Bucket : Type 0} → Option (NatsClient Bucket) → Probe → ℕ
probe_status client liveness = 200
probe_status none readiness = 200
probe_status (some c) readiness = if is_up c then 200 else 500

-- If it is an error, it has no name for goa.
abbrev IsNameless : {A : Type 0} → Result A → Type 0
IsNameless (ok a) = Unit
IsNameless (err e) = as_namer e ≡ none

is_ready-IsNameless : {Bucket : Type 0} (c : NatsClient Bucket) → IsNameless (is_ready c)
unfolding is_ready app_error as_namer
is_ready-IsNameless c = elim (Option-cases c.conn) [
  | inl f ↦ rw f refl
  | inr (conn, f) ↦ rw f (elim (Bool-cases (not conn.is_connected || conn.is_draining)) [
    | inl g ↦ rw g refl
    | inr g ↦ rw g tt
  ])
]

after_check :
    {A : Type 0} (r : Result A)
    → IsNameless r
    → IsNameless {A = String} (wrapping "NATS not ready" r >>= λ _. ok "OK")
unfolding as_namer
after_check (ok a) h = tt
after_check (err e) h = h

ready_answer-IsNameless :
    {Bucket : Type 0} (client : Option (NatsClient Bucket))
    → IsNameless (readyz (record { nats_client = client }))
unfolding readyz
ready_answer-IsNameless none = tt
ready_answer-IsNameless (some c) = after_check (is_ready c) (is_ready-IsNameless c)

abbrev answer_code : {A : Type 0} → Result A → ℕ
answer_code a = if is_err a then 500 else 200

readyz-answer_code :
    {Bucket : Type 0} (client : Option (NatsClient Bucket))
    → answer_code (readyz (record { nats_client = client })) ≡ probe_status client readiness
unfolding readyz is_ready
readyz-answer_code none = refl
readyz-answer_code (some c) = ground arith

readyz-IsNameless : {Bucket : Type 0} (s : PersonaService Bucket) → IsNameless (readyz s)
readyz-IsNameless s = ready_answer-IsNameless s.nats_client

-- The error handler of http.go only logs.
pub error_handler-IsSettled : IsSettled error_handler
unfolding handle_failure
error_handler-IsSettled ctx (none, w) = refl
error_handler-IsSettled ctx (some e, w) = refl

nameless_status :
    (a : Result String) → IsNameless a → designed_status readyz_method a ≡ answer_code a
nameless_status (ok b) n = refl
nameless_status (err e) n = ap (error_status readyz_method.errors) n

module _ {M Formatter : Type 0} (mw : Middleware M) (mux : Muxer M) (lib : Encoding Formatter)
    (transparent : IsTransparent mw) (router : IsRouter mux) (encoding : IsEncoding lib) where
  -- Both wrappers answer as the router does.
  unwrapped :
      (dbg : Bool) (h : Handler) (r : Request) (w : Writer)
      → mw.otel_handler "persona-service" (if dbg then mw.debug_http h else h) r w ≡ h r w
  unwrapped true h r w = transparent.otel _ _ r w ∙ transparent.debug h r w
  unwrapped false h r w = transparent.otel _ _ r w

  routed_status :
      {Bucket : Type 0} (s : PersonaService Bucket) (m : M) (p : Probe) (r : Request) (w : Writer)
      → r.method ≡ "GET"
      → r.path ≡ probe_path p
      → w.sent ≡ none
      → let server = new_server (new_endpoints (health_service s)) lib error_handler none in
        status_of (mux.serve (mount mux server m) r w) ≡ some (probe_status s.nats_client p)
  unfolding health_service livez
  routed_status s m liveness r w get path unsent =
      serve-design mux router lib encoding error_handler error_handler-IsSettled _ m livez_method
        (Memᴰ.head refl) r w get path unsent
  routed_status s m readiness r w get path unsent =
      serve-design mux router lib encoding error_handler error_handler-IsSettled _ m readyz_method
        (Memᴰ.tail (Memᴰ.head refl)) r w get path unsent
      ∙ ap some
          (nameless_status (readyz s) (readyz-IsNameless s) ∙ readyz-answer_code s.nats_client)

  -- A GET of `/livez` is answered with the status 200, and one of `/readyz` with 200 if the health
  -- service has no client or one whose connection is up, and otherwise with 500, in debug mode too: the
  -- 503 that the design gives to an unavailable service is never sent.
  pub probe_answer :
      {Bucket : Type 0} (s : PersonaService Bucket) (host : String) (dbg : Bool) (p : Probe)
      (r : Request) (w : Writer)
      → r.method ≡ "GET"
      → r.path ≡ probe_path p
      → w.sent ≡ none
      → let http = handle_http_server mw mux lib host (new_endpoints (health_service s)) dbg in
        status_of (http.handler r w) ≡ some (probe_status s.nats_client p)
  unfolding handle_http_server
  probe_answer s host dbg p r w get path unsent =
      ap status_of (unwrapped dbg _ r w) ∙ routed_status s _ p r w get path unsent
