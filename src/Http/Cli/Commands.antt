-- ===== src/Http/Cli/Commands.antt =====
-- Which command lines of gen/http/cli/persona/cli.go call which endpoint.
use mathlib.Core.Path.{subst}
use lfx_v2_persona_service.Prelude.{
  String, ◌==◌, eq_iff, Bool, Bool-cases, Option, Option-cases, some, List, [], ◌∷◌, ◌≡◌, ◌≢◌, ◌⊎◌,
  inl, inr, refl, ap, sym, ◌∙◌, arith, Error,
}
use lfx_v2_persona_service.Flags.{
  FlagSet, FlagError, help_requested, Value, Parsed, parsed, refused, terminator, classify, parse,
}
use lfx_v2_persona_service.Flags.Laws.{parse_words}
use lfx_v2_persona_service.Http.Client.{
  Outcome, Url, Decoder, Doer, Client, new_client, livez, readyz,
}
use lfx_v2_persona_service.Http.Cli.{
  endpoint, no_flags, service_name, exit_on_error, endpoint_of, endpoint_flags, select_endpoint,
  select_service, parse_endpoint,
}

-- The words that are left of a list of arguments with no flag: the list, or what follows two dashes.
abbrev pub WordsOf : List String → List String → Type 0
WordsOf args words =
    (args ≡ words) ⊎ ((dashes : String) × (args ≡ dashes ∷ words) × (classify dashes ≡ terminator))

-- The endpoint of a name.
abbrev pub IsEndpoint : Client → String → Outcome String → Type 0
IsEndpoint c name o = ((name ≡ "livez") × (o ≡ livez c)) ⊎ ((name ≡ "readyz") × (o ≡ readyz c))

-- The words name the service, and then an endpoint of a client.
abbrev pub IsCallOf : Client → List String → Outcome String → Type 0
IsCallOf c words o =
    (rest : List String) × (name : String) × (more : List String) × (words ≡ service_name ∷ rest)
    × WordsOf rest (name ∷ more)
    × IsEndpoint c name o

rest-WordsOf :
    (arg : String) (args words : List String)
    → (words ≡ arg ∷ args) ⊎ ((words ≡ args) × (classify arg ≡ terminator))
    → WordsOf (arg ∷ args) words
rest-WordsOf arg args words (inl h) = inl (sym h)
rest-WordsOf arg args words (inr (h, t)) = inr (arg, ap (λ l. arg ∷ l) (sym h), t)

endpoint_of-IsEndpoint :
    (c : Client) (name : String) (o : Outcome String)
    → endpoint_of c name ≡ some o
    → IsEndpoint c name o
unfolding endpoint_of
endpoint_of-IsEndpoint c name o h = ground (arith, eq_iff name "livez", eq_iff name "readyz")

exit_on_error-ne-endpoint : (f : FlagError) (o : Outcome String) → exit_on_error f ≢ endpoint o
unfolding exit_on_error
exit_on_error-ne-endpoint help_requested o h = cc
exit_on_error-ne-endpoint _ o h = cc

flags_passed :
    (e o : Outcome String) (name x : String) (xs : List String) (p : Parsed)
    → parse no_flags (x ∷ xs) ≡ p
    → endpoint_flags e (name ∷ x ∷ xs) ≡ endpoint o
    → e ≡ o
unfolding endpoint_flags
flags_passed e o name x xs (refused f) g h =
    absurd (exit_on_error-ne-endpoint f o (rw (g, endpoint_flags) at h))
flags_passed e o name x xs (parsed vs rest) g h = let passed = rw (g, endpoint_flags) at h in cc

endpoint_flags-endpoint :
    (e o : Outcome String) (args : List String) → endpoint_flags e args ≡ endpoint o → e ≡ o
unfolding endpoint_flags
endpoint_flags-endpoint e o [] h = cc
endpoint_flags-endpoint e o (name ∷ []) h = cc
endpoint_flags-endpoint e o (name ∷ x ∷ xs) h =
    flags_passed e o name x xs (parse no_flags (x ∷ xs)) refl h

-- The endpoint that is selected among the words that are left.
selected :
    (c : Client) (words : List String) (vs : List (String × Value)) (o : Outcome String)
    → select_endpoint c (parsed vs words) ≡ endpoint o
    → (name : String) × (more : List String) × (words ≡ name ∷ more) × IsEndpoint c name o
unfolding select_endpoint endpoint_of
selected c [] vs o e = cc
selected c (name ∷ more) vs o e = elim (Option-cases (endpoint_of c name)) [
  | inl f ↦ let refusal = rw (f, select_endpoint) at e in cc
  | inr (o', f) ↦
      let same = endpoint_flags-endpoint o' o (name ∷ more) (rw (f, select_endpoint) at e) in
      (name, more, refl, endpoint_of-IsEndpoint c name o (f ∙ ap some same))
]

called_service :
    (c : Client) (x : String) (xs : List String) (p : Parsed) (o : Outcome String)
    → parse no_flags (x ∷ xs) ≡ p
    → select_endpoint c p ≡ endpoint o
    → IsCallOf c (service_name ∷ x ∷ xs) o
unfolding select_endpoint
called_service c x xs (refused f) o g h = cc
called_service c x xs (parsed vs words) o g h =
    let (name, more, e, call) = selected c words vs o h in
    (
      x ∷ xs,
      name,
      more,
      refl,
      subst (WordsOf (x ∷ xs)) e (rest-WordsOf x xs words (parse_words x xs words vs g)),
      call,
    )

called :
    (c : Client) (p : Parsed) (o : Outcome String)
    → select_service c p ≡ endpoint o
    → (vs : List (String × Value)) × (words : List String) × (p ≡ parsed vs words)
      × IsCallOf c words o
unfolding select_service
called c (refused f) o h = absurd (exit_on_error-ne-endpoint f o h)
called c (parsed vs []) o h = cc
called c (parsed vs (svcn ∷ [])) o h = cc
called c (parsed vs (svcn ∷ x ∷ xs)) o h = elim (Bool-cases (svcn == service_name)) [
  | inl e ↦ (
    vs,
    svcn ∷ x ∷ xs,
    refl,
    subst (λ n. IsCallOf c (n ∷ x ∷ xs) o) (sym ((eq_iff svcn service_name).0 e))
        (called_service c x xs (parse no_flags (x ∷ xs)) o refl (rw e at h)),
  )
  | inr e ↦ let refusal = rw e at h in cc
]

-- Where `ParseEndpoint` returns an endpoint, the arguments behind the flags of the command line are the
-- name of the service and then, perhaps after two dashes, `livez` or `readyz`, and the endpoint is that one
-- of the client that was made.
pub parse_endpoint-IsCallOf :
    (global : FlagSet) (args : List String) (scheme host : String) (doer : Doer) (dec : Decoder)
    (restore_body : Bool) (new_request : Url → Option Error) (o : Outcome String)
    → parse_endpoint global args scheme host doer dec restore_body new_request ≡ endpoint o
    → (vs : List (String × Value)) × (words : List String) × (parse global args ≡ parsed vs words)
      × IsCallOf (new_client scheme host doer dec restore_body new_request) words o
unfolding parse_endpoint
parse_endpoint-IsCallOf global args scheme host doer dec restore_body new_request o h =
    called (new_client scheme host doer dec restore_body new_request) (parse global args) o h
