-- ===== src/Config/Laws.antt =====
-- What a loaded configuration guarantees to the handler.
use lfx_v2_persona_service.Prelude.{
  ℕ, ◌<◌, String, ◌==◌, ◌||◌, Bool, false, Bool-cases, inl, inr, not, ◌&&◌, Option, none, some,
  List, [], ◌∷◌, contains, map, ◌≡◌, arith,
}
use lfx_v2_persona_service.Json.{ℤ, pos, negsuc}
use lfx_v2_persona_service.Config.{Environment, positive_or, default_timeout, load}

positive_or_positive : (fallback : ℕ) (o : Option ℤ) → 0 < fallback → 0 < positive_or fallback o
unfolding positive_or
positive_or_positive fallback none h = h
positive_or_positive fallback (some (pos d)) h = ground (arith, h)
positive_or_positive fallback (some (negsuc d)) h = h

-- Whatever the environment has, the timeout is positive: the handler always has a deadline.
pub load-handler_timeout :
    (env : Environment) (parse : String → Option ℤ) → 0 < (load env parse).handler_timeout
unfolding load
load-handler_timeout env parse = elim (Bool-cases (env "PERSONA_HANDLER_TIMEOUT" == "")) [
  | inl e ↦ rw e (omega arith)
  | inr e ↦
      rw e
        (positive_or_positive default_timeout (parse (env "PERSONA_HANDLER_TIMEOUT")) (omega arith))
]

-- The variables of the CDP, all of which it needs.
abbrev pub cdp_keys : List String
cdp_keys =
    "AUTH0_ISSUER_BASE_URL" ∷ "AUTH0_CLIENT_ID" ∷ "AUTH0_M2M_PRIVATE_BASE64_KEY" ∷ "CDP_AUDIENCE"
    ∷ "CDP_BASE_URL" ∷ []

-- The CDP is enabled just when none of its five variables is unset or empty.
pub load-cdp_enabled :
    (env : Environment) (parse : String → Option ℤ)
    → (load env parse).cdp_enabled ≡ not (contains (map env cdp_keys) "")
unfolding load
load-cdp_enabled env parse = five _ _ _ _ _
  where
    five :
        (a b c d e : Bool)
        → (not a && not b && not c && not d && not e) ≡ not (a || (b || (c || (d || (e || false)))))
    five a b c d e = ground arith
