-- ===== src/Handler/Collector/Progress.antt =====
-- The end of the collecting loop of internal/service/message_handler.go: its measure and its next step.
use lfx_v2_persona_service.Prelude.{
  ℕ, suc, ◌+◌, ◌*◌, ◌<◌, ◌≤◌, Bool, true, false, List, [], ◌∷◌, ◌++◌, length, ◌≡◌, refl, arith, ap,
  ◌⊎◌, inl, inr,
}
use mathlib.Core.List.{foldl}
use lfx_v2_persona_service.Model.{PersonaResponse}
use lfx_v2_persona_service.Handler.{SourceResult}
use lfx_v2_persona_service.Handler.Collector.{
  Collector, Phase, collecting, draining, replied, Step, finish, close, expire, receive_result,
  receive_closed, context_done, drain_result, drained, Run, here, then_, timeout_response, receive,
}

abbrev flag_work : Bool → ℕ
flag_work true = 0
flag_work false = 1

abbrev phase_work : Phase → ℕ
phase_work collecting = 2
phase_work draining = 1
phase_work (replied _) = 0

-- How many steps a collector can still take, at most.
unfoldable pub work : Collector → ℕ
work c =
    2 * length c.pending
    + length c.buffer
    + flag_work c.closed
    + flag_work c.expired
    + phase_work c.phase

length-append : (xs ys : List SourceResult) → length (xs ++ ys) ≡ length xs + length ys
length-append [] ys = omega arith
length-append (x ∷ xs) ys = omega (arith, length-append xs ys)

pub work-lt : {c d : Collector} → Step c d → work d < work c
unfolding work
work-lt {c} (finish before after r e) = omega (
  arith,
  ap length e,
  length-append before after,
  length-append before (r ∷ after),
  length-append c.buffer (r ∷ []),
)
work-lt (close e f) = rw f (omega arith)
work-lt (expire e) = rw e (omega arith)
work-lt (receive_result r rest e f) = rw f (omega arith)
work-lt (receive_closed e f g) = rw e (omega arith)
work-lt (context_done e f) = rw e (omega arith)
work-lt (drain_result r rest e f) = rw f (omega arith)
work-lt (drained e f) = rw e (omega arith)

abbrev pub steps : {c d : Collector} → Run c d → ℕ
steps here = 0
steps (then_ r s) = suc (steps r)

-- The steps of a run and the work left at its end are at most the work at its start: every run ends.
pub steps-le-work : {c d : Collector} (r : Run c d) → steps r + work d ≤ work c
steps-le-work here = omega arith
steps-le-work (then_ r s) = omega (arith, steps-le-work r, work-lt s)

abbrev pub HasReplied : Collector → Type 0
HasReplied c = (resp : PersonaResponse) × (c.phase ≡ replied resp)

collecting_advances :
    (c : Collector) (b p : List SourceResult) (k : Bool)
    → c.phase ≡ collecting
    → c.buffer ≡ b
    → c.pending ≡ p
    → c.closed ≡ k
    → (d : Collector) × Step c d
collecting_advances c (r ∷ rest) p k e f g h = (_, receive_result r rest e f)
collecting_advances c [] (r ∷ rest) k e f g h = (_, finish [] rest r g)
collecting_advances c [] [] true e f g h = (_, receive_closed e f h)
collecting_advances c [] [] false e f g h = (_, close g h)

draining_advances :
    (c : Collector) (b : List SourceResult)
    → c.phase ≡ draining
    → c.buffer ≡ b
    → (d : Collector) × Step c d
draining_advances c (r ∷ rest) e f = (_, drain_result r rest e f)
draining_advances c [] e f = (_, drained e f)

progress_at :
    (c : Collector) (q : Phase) → c.phase ≡ q → HasReplied c ⊎ ((d : Collector) × Step c d)
progress_at c collecting e =
    inr (collecting_advances c c.buffer c.pending c.closed e refl refl refl)
progress_at c draining e = inr (draining_advances c c.buffer e refl)
progress_at c (replied resp) e = inl (resp, e)

-- A collector has replied or can take a step.
pub progress : (c : Collector) → HasReplied c ⊎ ((d : Collector) × Step c d)
progress c = progress_at c c.phase refl

-- The loop's own steps from an ended context, with no goroutine finishing.
draining_replies :
    (c : Collector) (b : List SourceResult)
    → c.phase ≡ draining
    → c.buffer ≡ b
    → {a : Collector} → Run a c
    → (d : Collector) × Run a d
      × (d.phase ≡ replied (timeout_response (foldl receive c.projects b)))
      × (d.pending ≡ c.pending)
draining_replies c [] e f run = (_, then_ run (drained e f), refl, refl)
draining_replies c (r ∷ rest) e f run =
    draining_replies (record c { buffer = rest; projects = receive c.projects r }) rest e refl
      (then_ run (drain_result r rest e f))

-- From the outer select with an ended context, the loop can reply by its own steps: it merges what
-- the channel holds, answers with the timeout, and no goroutine has to finish.
pub expired_replies :
    (c : Collector)
    → c.phase ≡ collecting
    → c.expired ≡ true
    → (d : Collector) × Run c d
      × (d.phase ≡ replied (timeout_response (foldl receive c.projects c.buffer)))
      × (d.pending ≡ c.pending)
expired_replies c e f =
    draining_replies (record c { phase = draining }) c.buffer refl refl
      (then_ here (context_done e f))
