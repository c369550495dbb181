-- ===== src/Handler/Collector/Invariant.antt =====
-- The reachable states of the collecting loop of internal/service/message_handler.go: what relates
-- the results that were received to the sources.
use mathlib.Core.Path.{subst}
use mathlib.Core.List.{foldl, foldl-append, append_assoc, Permᴰ}
use mathlib.Core.List.Permᴰ as PermD
use lfx_v2_persona_service.Prelude.{
  Bool, true, false, List, [], ◌∷◌, ◌++◌, none, ◌≡◌, refl, ap, sym, ◌∙◌, ◌⊎◌, inl, inr,
}
use lfx_v2_persona_service.Model.{PersonaResponse}
use lfx_v2_persona_service.Handler.{SourceResult}
use lfx_v2_persona_service.Handler.Collector.{
  Collector, Phase, collecting, draining, replied, start, Step, finish, close, expire,
  receive_result, receive_closed, context_done, drain_result, drained, Run, here, then_,
  timeout_response, full_response, on_closed, receive,
}

-- A reply is the full response when nothing is left, or a timeout after the context has ended.
abbrev pub Justifies : Collector → Phase → Type 0
Justifies c collecting = Unit
Justifies c draining = c.expired ≡ true
Justifies c (replied resp) =
    ((resp ≡ full_response c.projects) × (c.buffer ≡ []) × (c.pending ≡ []))
    ⊎ ((resp ≡ timeout_response c.projects) × (c.expired ≡ true))

-- `rs` are the results received so far, in order.
pub record Explains (srcs : List SourceResult) (c : Collector) (rs : List SourceResult)
    : Type 0 where
  pub each_once : Permᴰ (rs ++ (c.buffer ++ c.pending)) srcs
  pub gathered : c.projects ≡ foldl receive none rs
  pub closed_late : c.closed ≡ true → c.pending ≡ []
  pub justified : Justifies c c.phase

-- A result that moves within the unreceived ones.
finish-perm :
    (rs buffer before after : List SourceResult) (r : SourceResult)
    → Permᴰ
        (rs ++ ((buffer ++ r ∷ []) ++ (before ++ after)))
        (rs ++ (buffer ++ (before ++ r ∷ after)))
finish-perm rs buffer before after r = PermD.append_left rs (
    subst (λ l. Permᴰ l (buffer ++ (before ++ r ∷ after)))
      (sym (append_assoc buffer (r ∷ []) (before ++ after)))
      (PermD.append_left buffer (PermD.symm (PermD.middle r before after))))

no_cons_in_nil :
    (before after : List SourceResult) (r : SourceResult) → [] ≡ before ++ r ∷ after → ⊥
no_cons_in_nil [] after r e = cc
no_cons_in_nil (x ∷ before) after r e = cc

module _ (srcs : List SourceResult) (c : Collector) (rs : List SourceResult)
    (h : Explains srcs c rs) where
  finish_phase :
      (before after : List SourceResult) (r : SourceResult)
      → c.pending ≡ before ++ r ∷ after
      → (q : Phase) → Justifies c q
      → Justifies (record c { pending = before ++ after; buffer = c.buffer ++ r ∷ [] }) q
  finish_phase before after r e collecting j = j
  finish_phase before after r e draining j = j
  finish_phase before after r e (replied resp) (inl (_, _, p)) =
      absurd (no_cons_in_nil before after r (sym p ∙ e))
  finish_phase before after r e (replied resp) (inr j) = inr j

  expire_phase : (q : Phase) → Justifies c q → Justifies (record c { expired = true }) q
  expire_phase collecting j = j
  expire_phase draining j = refl
  expire_phase (replied resp) (inl j) = inl j
  expire_phase (replied resp) (inr (j, _)) = inr (j, refl)

  close_phase : (q : Phase) → Justifies c q → Justifies (record c { closed = true }) q
  close_phase collecting j = j
  close_phase draining j = j
  close_phase (replied resp) j = j

  -- One more result received, from the head of the channel.
  take :
      (r : SourceResult) (rest : List SourceResult) (q : Phase)
      → c.buffer ≡ r ∷ rest
      → c.phase ≡ q
      → Justifies (record c { buffer = rest; projects = receive c.projects r }) q
      → Explains srcs (record c { buffer = rest; projects = receive c.projects r }) (rs ++ r ∷ [])
  take r rest q e f j = record {
    each_once =
        subst (λ l. Permᴰ l srcs)
          (ap (λ b. rs ++ (b ++ c.pending)) e ∙ sym (append_assoc rs (r ∷ []) (rest ++ c.pending)))
          h.each_once;
    gathered = ap (λ p. receive p r) h.gathered ∙ sym (foldl-append receive none rs (r ∷ []));
    closed_late = h.closed_late;
    justified =
        subst (Justifies (record c { buffer = rest; projects = receive c.projects r })) (sym f) j;
  }

  reply :
      (resp : PersonaResponse)
      → Justifies (record c { phase = replied resp }) (replied resp)
      → Explains srcs (record c { phase = replied resp }) rs
  reply resp j = record {
    each_once = h.each_once;
    gathered = h.gathered;
    closed_late = h.closed_late;
    justified = j;
  }

  closed_reply :
      (x : Bool)
      → c.expired ≡ x
      → c.buffer ≡ []
      → c.closed ≡ true
      → Justifies (record c { phase = replied (on_closed c) }) (replied (on_closed c))
  unfolding on_closed
  closed_reply true e f g = inr (rw e, e)
  closed_reply false e f g = inl (rw e, f, h.closed_late g)

  Step-Explains : {d : Collector} → Step c d → (ss : List SourceResult) × Explains srcs d ss
  Step-Explains (finish before after r e) = (
    rs,
    record {
      each_once =
          Permᴰ.trans (finish-perm rs c.buffer before after r)
            (subst (λ p. Permᴰ (rs ++ (c.buffer ++ p)) srcs) e h.each_once);
      gathered = h.gathered;
      closed_late = λ k. absurd (no_cons_in_nil before after r (sym (h.closed_late k) ∙ e));
      justified = finish_phase before after r e c.phase h.justified;
    },
  )
  Step-Explains (close e f) = (
    rs,
    record {
      each_once = h.each_once;
      gathered = h.gathered;
      closed_late = λ _. e;
      justified = close_phase c.phase h.justified;
    },
  )
  Step-Explains (expire e) = (
    rs,
    record {
      each_once = h.each_once;
      gathered = h.gathered;
      closed_late = h.closed_late;
      justified = expire_phase c.phase h.justified;
    },
  )
  Step-Explains (receive_result r rest e f) = (rs ++ r ∷ [], take r rest collecting f e tt)
  Step-Explains (receive_closed e f g) = (rs, reply (on_closed c) (closed_reply c.expired refl f g))
  Step-Explains (context_done e f) = (
    rs,
    record {
      each_once = h.each_once;
      gathered = h.gathered;
      closed_late = h.closed_late;
      justified = f;
    },
  )
  Step-Explains (drain_result r rest e f) =
      (rs ++ r ∷ [], take r rest draining f e (subst (Justifies c) e h.justified))
  Step-Explains (drained e f) =
      (rs, reply (timeout_response c.projects) (inr (refl, subst (Justifies c) e h.justified)))

start-Explains : (srcs : List SourceResult) → Explains srcs (start srcs) []
start-Explains srcs = record {
  each_once = PermD.refl srcs;
  gathered = refl;
  closed_late = λ k. cc;
  justified = tt;
}

Run-Explains_from :
    {srcs : List SourceResult} {a c : Collector}
    → ((rs : List SourceResult) × Explains srcs a rs)
    → Run a c
    → (rs : List SourceResult) × Explains srcs c rs
Run-Explains_from h here = h
Run-Explains_from {srcs} h (then_ {d = d} r s) =
    let (rs, k) = Run-Explains_from h r in Step-Explains srcs d rs k s

-- Every reachable state is explained by the results received on the way.
pub Run-Explains :
    (srcs : List SourceResult) (c : Collector)
    → Run (start srcs) c
    → (rs : List SourceResult) × Explains srcs c rs
Run-Explains srcs c r = Run-Explains_from ([], start-Explains srcs) r
