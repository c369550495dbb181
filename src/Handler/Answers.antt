-- ===== src/Handler/Answers.antt =====
-- `GetPersona` of internal/service/message_handler.go from the message to the response.
use lfx_v2_persona_service.Prelude.{ℕ, zero, suc, ◌≤◌, ◌≡◌, refl, inl, inr, arith}
use lfx_v2_persona_service.Json.{Bytes}
use lfx_v2_persona_service.Runtime.{Runtime}
use lfx_v2_persona_service.Model.{PersonaRequest, PersonaResponse}
use lfx_v2_persona_service.Cdp.Cache.{KeyValue}
use lfx_v2_persona_service.Sources.Access.{Matches}
use lfx_v2_persona_service.Sources.CdpRoles.{Times}
use lfx_v2_persona_service.Handler.{
  Validated, rejected, accepted, validate, PersonaHandler, sources,
}
use lfx_v2_persona_service.Handler.Collector.{Collector, replied, start, Run, here, then_}
use lfx_v2_persona_service.Handler.Collector.Progress.{work, work-lt, HasReplied, progress}

-- The responses that a message can have: the answer of the validation, or the reply of a run of the
-- collecting loop over the sources of the request.
pub data GetPersona (rt : Runtime) (S : KeyValue) (Bucket : Type 0) (order : Matches → Matches)
    (t : Times) (h : PersonaHandler rt S Bucket) (body : Bytes) : PersonaResponse → Type 0 where
  refused :
      (resp : PersonaResponse)
      → validate rt body ≡ rejected resp
      → GetPersona rt S Bucket order t h body resp
  collected :
      (req : PersonaRequest) (c : Collector) (resp : PersonaResponse)
      → validate rt body ≡ accepted req
      → Run (start (sources rt S Bucket order t h req)) c
      → c.phase ≡ replied resp
      → GetPersona rt S Bucket order t h body resp

reply_from :
    (limit : ℕ) (c d : Collector)
    → Run c d
    → work d ≤ limit
    → (e : Collector) × Run c e × HasReplied e
reply_from zero c d run small = elim (progress d) [
  | inl done ↦ (d, run, done)
  | inr (e, s) ↦ absurd (omega (arith, work-lt s, small))
]
reply_from (suc limit) c d run small = elim (progress d) [
  | inl done ↦ (d, run, done)
  | inr (e, s) ↦ reply_from limit c e (then_ run s) (omega (arith, work-lt s, small))
]

-- From every state that the collecting loop can reach, it can go on to a reply: no schedule leads to a
-- dead end.
pub Run-reply : {c d : Collector} → Run c d → (e : Collector) × Run c e × HasReplied e
Run-reply {c} {d} run = reply_from (work d) c d run (omega arith)

module _ (rt : Runtime) (S : KeyValue) (Bucket : Type 0) (order : Matches → Matches) (t : Times)
    (h : PersonaHandler rt S Bucket) (body : Bytes) where
  answer_of :
      (v : Validated)
      → validate rt body ≡ v
      → (resp : PersonaResponse) × GetPersona rt S Bucket order t h body resp
  answer_of (rejected resp) e = (resp, GetPersona.refused resp e)
  answer_of (accepted req) e =
      let (c, run, done) = Run-reply {d = start (sources rt S Bucket order t h req)} here in
      (done.0, GetPersona.collected req c done.0 e run done.1)

  -- Every message has a response, whatever it holds and whatever the sources answer.
  pub GetPersona-total : (resp : PersonaResponse) × GetPersona rt S Bucket order t h body resp
  GetPersona-total = answer_of (validate rt body) refl
