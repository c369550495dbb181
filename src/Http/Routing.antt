-- ===== src/Http/Routing.antt =====
-- Where the routes of gen/http/persona_service/server lead.
use lfx_v2_persona_service.Prelude.{String, ◌≡◌, ◌≢◌, refl, sym, ◌∙◌}
use lfx_v2_persona_service.Http.{Writer, Request, Muxer}
use lfx_v2_persona_service.Http.Contracts.{IsRouter}
use lfx_v2_persona_service.Http.Server.{Server, mount, mount_livez_handler, mount_readyz_handler}

other_path : ◌≢◌ {A = String} "/livez" "/readyz"
other_path e = cc

module _ {M : Type 0} (mux : Muxer M) (router : IsRouter mux) (server : Server) (m : M)
    (r : Request) (w : Writer) (get : r.method ≡ "GET") where
  pub serve-livez : r.path ≡ "/livez" → mux.serve (mount mux server m) r w ≡ server.livez r w
  unfolding mount mount_livez_handler mount_readyz_handler
  serve-livez path =
      router.passed "GET" "/readyz" _ _ r w refl (λ e. absurd (other_path (sym path ∙ e)))
      ∙ router.matched "GET" "/livez" _ m r w refl get path

  pub serve-readyz : r.path ≡ "/readyz" → mux.serve (mount mux server m) r w ≡ server.readyz r w
  unfolding mount mount_readyz_handler
  serve-readyz path = router.matched "GET" "/readyz" _ _ r w refl get path
