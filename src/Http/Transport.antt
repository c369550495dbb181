-- ===== src/Http/Transport.antt =====
-- The transport between the client and the server of the generated code, and what the client makes of the
-- responses of each status.
use mathlib.Core.Option
use mathlib.Core.Option.{some-ne-none, some-injective}
use lfx_v2_persona_service.Prelude.{
  ℕ, String, Bool, none, some, Option-cases, ◌≡◌, inl, inr, refl, ap, sym, ◌∙◌, ok,
}
use lfx_v2_persona_service.Http.{Writer, fresh, Request, Handler}
use lfx_v2_persona_service.Http.Contracts.{status_of}
use lfx_v2_persona_service.Http.Client.{
  ClientRequest, Response, open_, Decoder, Doer, Outcome, answered, failed, ◌>>=◌, Client,
  build_livez_request, build_readyz_request, do_request, livez, readyz, decode_livez_response,
  decode_readyz_response,
}
use lfx_v2_persona_service.Http.Client.Decoding.{
  IsInvalid, IsUnavailable, livez-success, readyz-success, livez-fault, readyz-fault,
  readyz-IsUnavailable,
}

-- The response that the net/http server makes of what a handler wrote.
abbrev pub response_of : Writer → Response
response_of w = record {
  status_code = elim w.sent [ none ↦ 200 | some s ↦ s.0 ];
  header = elim w.sent [ none ↦ w.header | some s ↦ s.1 ];
  body = open_ w.body none;
}

-- The request that a handler gets of one that the client sends.
abbrev pub request_of : ClientRequest → Request
request_of r = record { method = r.method; path = r.url.path; accept = "" }

-- Each request of the client reaches the handler.
abbrev pub doer : Handler → Doer
doer h r = ok (response_of (h (request_of r) fresh))

-- The request of the client for a path, as the server gets it.
abbrev pub call : String → Request
call path = record { method = "GET"; path = path; accept = "" }

status-sent : (w : Writer) (code : ℕ) → status_of w ≡ some code → (response_of w).status_code ≡ code
status-sent w code h = elim (Option-cases w.sent) [
  | inl f ↦ absurd (some-ne-none code (sym h ∙ ap (Option.map (λ s. s.0)) f))
  | inr (s, f) ↦ rw f (some-injective _ _ (sym (ap (Option.map (λ s. s.0)) f) ∙ h))
]

-- What the client makes of a response of each status.
module _ (decoder : Decoder) (restore_body : Bool) (w : Writer) where
  pub livez_of_200 :
      (b : String)
      → status_of w ≡ some 200
      → decoder.decode_bytes (response_of w) ≡ ok b
      → (decode_livez_response decoder restore_body (response_of w)).0 ≡ answered b
  livez_of_200 b h = livez-success decoder restore_body _ _ _ b (status-sent w 200 h)

  pub readyz_of_200 :
      (b : String)
      → status_of w ≡ some 200
      → decoder.decode_bytes (response_of w) ≡ ok b
      → (decode_readyz_response decoder restore_body (response_of w)).0 ≡ answered b
  readyz_of_200 b h = readyz-success decoder restore_body _ _ _ b (status-sent w 200 h)

  pub livez_of_500 :
      status_of w ≡ some 500
      → IsInvalid "livez" 500 (decode_livez_response decoder restore_body (response_of w)).0
  livez_of_500 h = livez-fault decoder restore_body _ _ _ (status-sent w 500 h)

  pub readyz_of_500 :
      status_of w ≡ some 500
      → IsInvalid "readyz" 500 (decode_readyz_response decoder restore_body (response_of w)).0
  readyz_of_500 h = readyz-fault decoder restore_body _ _ _ (status-sent w 500 h)

  pub readyz_of_503 :
      status_of w ≡ some 503
      → IsUnavailable (decode_readyz_response decoder restore_body (response_of w)).0
  readyz_of_503 h = readyz-IsUnavailable decoder restore_body _ _ _ (status-sent w 503 h)

pub relayed : (o : Outcome String) → (o >>= λ b. answered b) ≡ o
relayed (answered b) = refl
relayed (failed e) = refl

-- The endpoints of a client whose URLs are valid.
module _ (c : Client) (h : Handler) where
  pub livez_sent :
      c.new_request (record { scheme = c.scheme; host = c.host; path = "/livez" }) ≡ none
      → c.livez_doer ≡ doer h
      → livez c
        ≡ (decode_livez_response c.decoder c.restore_response_body
            (response_of (h (call "/livez") fresh))).0
  unfolding livez build_livez_request do_request
  livez_sent valid d = rw (livez, build_livez_request, valid, do_request, d) refl

  pub readyz_sent :
      c.new_request (record { scheme = c.scheme; host = c.host; path = "/readyz" }) ≡ none
      → c.readyz_doer ≡ doer h
      → readyz c
        ≡ (decode_readyz_response c.decoder c.restore_response_body
            (response_of (h (call "/readyz") fresh))).0
  unfolding readyz build_readyz_request do_request
  readyz_sent valid d = rw (readyz, build_readyz_request, valid, do_request, d) refl
