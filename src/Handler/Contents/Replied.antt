-- ===== src/Handler/Contents/Replied.antt =====
-- What any project of a reply of `GetPersona` is like, however its sources were received.
use mathlib.Core.Path.{subst}
use mathlib.Core.List.{foldl, Permᴰ}
use mathlib.Core.List.Permᴰ as PermD
use lfx_v2_persona_service.Prelude.{
  String, List, [], ◌∷◌, ◌++◌, Slice, none, elements, All, ◌≡◌, ap, sym, ◌∙◌, ok, err, Result,
}
use lfx_v2_persona_service.Runtime.{Runtime}
use lfx_v2_persona_service.Model.{PersonaRequest, PersonaResponse, Project}
use lfx_v2_persona_service.Model.Tokens.{IsFoundBy, merge_projects-IsFoundBy}
use lfx_v2_persona_service.Cdp.Cache.{KeyValue}
use lfx_v2_persona_service.Sources.Access.{Matches}
use lfx_v2_persona_service.Sources.CdpRoles.{Times}
use lfx_v2_persona_service.Sources.Found.{GivesTokens}
use lfx_v2_persona_service.Sources.Found.Permitted.{All-perm}
use lfx_v2_persona_service.Handler.{SourceResult, PersonaHandler, sources}
use lfx_v2_persona_service.Handler.Collector.{Collector, replied, start, Run, receive}
use lfx_v2_persona_service.Handler.Collector.Invariant.{Run-Explains}
use lfx_v2_persona_service.Handler.Collector.Replies.{elements_of_reply}
use lfx_v2_persona_service.Handler.Contents.{all_tokens, Contributes, sources-Contributes}

receive-IsFoundBy :
    (tokens : List String) (projects : Slice Project) (name : String) (o : Result (List Project))
    → All (IsFoundBy tokens) (elements projects)
    → GivesTokens tokens o
    → All (IsFoundBy tokens) (elements (receive projects (record { name = name; result = o })))
unfolding receive
receive-IsFoundBy tokens projects name (err e) h k = h
receive-IsFoundBy tokens projects name (ok ps) h k =
    merge_projects-IsFoundBy tokens (elements projects) ps h k

foldl-IsFoundBy :
    (projects : Slice Project) (rs : List SourceResult)
    → All (IsFoundBy all_tokens) (elements projects)
    → All Contributes rs
    → All (IsFoundBy all_tokens) (elements (foldl receive projects rs))
foldl-IsFoundBy projects [] h k = h
foldl-IsFoundBy projects (r ∷ rs) h (k, ks) =
    foldl-IsFoundBy (receive projects r) rs
      (receive-IsFoundBy all_tokens projects r.name r.result h k) ks

All-front : {A : Type 0} (P : A → Type 0) (xs ys : List A) → All P (xs ++ ys) → All P xs
All-front P [] ys h = tt
All-front P (x ∷ xs) ys (h, hs) = (h, All-front P xs ys hs)

-- Every project of any reply of the handler to an accepted request, in time or not and whatever its
-- clients answer, has a UID and at least one detection, and each detection has a token of the
-- contract; the map of the writer and auditor source is visited in any order.
pub reply-IsFoundBy :
    (rt : Runtime) (S : KeyValue) (Bucket : Type 0) (order : Matches → Matches)
    (same : (ms : Matches) → Permᴰ (order ms) ms) (t : Times) (h : PersonaHandler rt S Bucket)
    (req : PersonaRequest) (c : Collector) (run : Run (start (sources rt S Bucket order t h req)) c)
    (resp : PersonaResponse)
    → c.phase ≡ replied resp
    → All (IsFoundBy all_tokens) (elements resp.projects)
reply-IsFoundBy rt S Bucket order same t h req c run resp e =
    let srcs = sources rt S Bucket order t h req in
    let found = Run-Explains srcs c run in
    subst (λ ps. All (IsFoundBy all_tokens) ps)
      (sym (elements_of_reply srcs c run resp e ∙ ap elements found.1.gathered))
      (foldl-IsFoundBy none found.0 tt (
        All-front Contributes found.0 _ (
          All-perm Contributes (PermD.symm found.1.each_once)
            (sources-Contributes rt S Bucket order same t h req))))
