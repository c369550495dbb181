-- ===== src/Service/Startup/Readiness.antt =====
-- The health endpoint of cmd/server/service/persona.go in a process that cmd/server/main.go started.
use lfx_v2_persona_service.Prelude.{
  String, Bool, Option, none, some, ◌≡◌, refl, ap, ◌∙◌, Result, ok, err,
}
use mathlib.Core.Path.{subst}
use lfx_v2_persona_service.Nats.{NatsClient}
use lfx_v2_persona_service.Http.{Writer, Request, Encoding, Muxer, new_endpoints}
use lfx_v2_persona_service.Http.Contracts.{status_of, IsRouter, IsEncoding}
use lfx_v2_persona_service.Service.Listen.{Middleware, health_service, handle_http_server}
use lfx_v2_persona_service.Service.Probes.{
  IsTransparent, Probe, liveness, readiness, probe_path, probe_status, probe_answer,
}
use lfx_v2_persona_service.Service.Health.{readyz}
use lfx_v2_persona_service.Service.Startup.{Started, start_up}

ok-injective : {A : Type 0} (a b : A) → ◌≡◌ {A = Result A} (ok a) (ok b) → a ≡ b
ok-injective a b e = cc

-- A process that has started answers that it is ready, whatever the state of its client of NATS: not
-- connected, draining or closed.
pub readyz-start_up :
    {Bucket : Type 0} (initialised : Result (NatsClient Bucket)) (started : Started Bucket)
    → start_up initialised ≡ ok started
    → readyz started.health ≡ ok "OK"
unfolding start_up readyz
readyz-start_up (ok client) started e =
    subst (λ s. readyz s.health ≡ ok "OK") (ok-injective _ started e) refl
readyz-start_up (err f) started e = cc

no_client :
    {Bucket : Type 0} (initialised : Result (NatsClient Bucket)) (started : Started Bucket)
    → start_up initialised ≡ ok started
    → started.health.nats_client ≡ none
unfolding start_up
no_client (ok client) started e =
    subst (λ s. s.health.nats_client ≡ none) (ok-injective _ started e) refl
no_client (err f) started e = cc

no_client_status :
    {Bucket : Type 0} (client : Option (NatsClient Bucket)) (p : Probe)
    → client ≡ none
    → probe_status client p ≡ 200
no_client_status none liveness e = refl
no_client_status none readiness e = refl
no_client_status (some c) p e = cc

module _ {M Formatter : Type 0} (mw : Middleware M) (mux : Muxer M) (lib : Encoding Formatter)
    (transparent : IsTransparent mw) (router : IsRouter mux) (encoding : IsEncoding lib) where
  -- The HTTP server of a process that has started answers a GET of `/livez` and one of `/readyz` with the
  -- status 200, whatever the state of the client of NATS: not connected, draining or closed.
  pub started_probe :
      {Bucket : Type 0} (initialised : Result (NatsClient Bucket)) (started : Started Bucket)
      (host : String) (dbg : Bool) (p : Probe) (r : Request) (w : Writer)
      → start_up initialised ≡ ok started
      → r.method ≡ "GET"
      → r.path ≡ probe_path p
      → w.sent ≡ none
      → let endpoints = new_endpoints (health_service started.health) in
        let http = handle_http_server mw mux lib host endpoints dbg in
        status_of (http.handler r w) ≡ some 200
  started_probe initialised started host dbg p r w e get path unsent =
      probe_answer mw mux lib transparent router encoding started.health host dbg p r w get path
        unsent
      ∙ ap some (no_client_status started.health.nats_client p (no_client initialised started e))
