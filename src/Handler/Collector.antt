-- ===== src/Handler/Collector.antt =====
-- The collecting loop of `GetPersona`: goroutines that finish in any order, the channel, the end of the
-- context at any moment, and the `select` that takes whichever is ready.
pub mod Progress
pub mod Invariant
pub mod Replies
use lfx_v2_persona_service.Prelude.{
  String, Bool, true, false, Option, none, some, List, [], ◌∷◌, ◌++◌, if◌then◌else◌, Slice,
  elements, ◌≡◌, ok, err,
}
use lfx_v2_persona_service.Model.{PersonaResponse, Project, merge_projects}
use lfx_v2_persona_service.Handler.{SourceResult}

-- Where the loop stands: the outer `select`, the drain after `ctx.Done()`, or returned.
pub data Phase : Type 0 where
  collecting draining : Phase
  replied : PersonaResponse → Phase

-- The goroutines that run, with what each will send; the channel; whether it is closed; whether
-- the context has ended; and the variables of the loop.
pub record Collector : Type 0 where
  pub pending : List SourceResult
  pub buffer : List SourceResult
  pub closed : Bool
  pub expired : Bool
  pub projects : Slice Project
  pub phase : Phase

abbrev pub start : List SourceResult → Collector
start srcs = record {
  pending = srcs;
  buffer = [];
  closed = false;
  expired = false;
  projects = none;
  phase = collecting;
}

-- A result that was received: a failed source is skipped.
unfoldable pub receive : Slice Project → SourceResult → Slice Project
receive projects r = elim r.result [
  | err e ↦ projects
  | ok ps ↦ some (merge_projects (elements projects) ps)
]

-- `if projects == nil { projects = []model.Project{} }`
unfoldable pub never_nil : Slice Project → Slice Project
never_nil none = some []
never_nil (some ps) = some ps

unfoldable pub timeout_response : Slice Project → PersonaResponse
unfolding never_nil
timeout_response projects = record {
  projects = never_nil projects;
  error = some (record {
    code = "handler_timeout";
    message = "persona detection timed out; upstream sources did not respond in time";
  });
}

-- The response after the loop.
unfoldable pub full_response : Slice Project → PersonaResponse
unfolding never_nil
full_response projects = record { projects = never_nil projects; error = none }

-- The reply when the channel is found closed: the context may have ended meanwhile.
unfoldable pub on_closed : Collector → PersonaResponse
unfolding timeout_response full_response
on_closed c = if c.expired then timeout_response c.projects else full_response c.projects

pub data Step (c : Collector) : Collector → Type 0 where
  -- A goroutine sends its result; the channel has room for all.
  finish :
      (before after : List SourceResult) (r : SourceResult)
      → c.pending ≡ before ++ r ∷ after
      → Step c (record c { pending = before ++ after; buffer = c.buffer ++ r ∷ [] })
  -- `wg.Wait(); close(results)`
  close : c.pending ≡ [] → c.closed ≡ false → Step c (record c { closed = true })
  -- The deadline fires, or the caller's context is cancelled.
  expire : c.expired ≡ false → Step c (record c { expired = true })
  receive_result :
      (r : SourceResult) (rest : List SourceResult)
      → c.phase ≡ collecting
      → c.buffer ≡ r ∷ rest
      → Step c (record c { buffer = rest; projects = receive c.projects r })
  receive_closed :
      c.phase ≡ collecting
      → c.buffer ≡ []
      → c.closed ≡ true
      → Step c (record c { phase = replied (on_closed c) })
  context_done : c.phase ≡ collecting → c.expired ≡ true → Step c (record c { phase = draining })
  drain_result :
      (r : SourceResult) (rest : List SourceResult)
      → c.phase ≡ draining
      → c.buffer ≡ r ∷ rest
      → Step c (record c { buffer = rest; projects = receive c.projects r })
  -- The channel is empty, closed or not.
  drained :
      c.phase ≡ draining
      → c.buffer ≡ []
      → Step c (record c { phase = replied (timeout_response c.projects) })

pub data Run (c : Collector) : Collector → Type 0 where
  here : Run c c
  then_ : {d e : Collector} → Run c d → Step d e → Run c e
