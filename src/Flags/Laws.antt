-- ===== src/Flags/Laws.antt =====
-- What `Parse` of Go's package flag does with a list of arguments.
use lfx_v2_persona_service.Prelude.{String, Option, ◌⊎◌, inl, inr, List, [], ◌∷◌, ◌≡◌, refl}
use lfx_v2_persona_service.Flags.{
  FlagSet, Value, Parsed, parsed, Argument, plain, terminator, malformed, flag, take_argument,
  classify, parse,
}

-- At an argument that is no flag the flags end.
pub parse-plain :
    (flags : FlagSet) (arg : String) (args : List String)
    → classify arg ≡ plain
    → parse flags (arg ∷ args) ≡ parsed [] (arg ∷ args)
unfolding parse
parse-plain flags arg args h = rw h refl

taken :
    (arg : String) (args us : List String) (vs : List (String × Value)) (a : Argument)
    (continue : Option String → Parsed)
    → take_argument [] arg args a continue ≡ parsed vs us
    → (us ≡ arg ∷ args) ⊎ ((us ≡ args) × (a ≡ terminator))
unfolding take_argument
taken arg args us vs plain continue h = inl (cc)
taken arg args us vs terminator continue h = inr (cc, refl)
taken arg args us vs malformed continue h = cc
taken arg args us vs (flag name v) continue h = cc

-- With no flag defined a list of arguments is left as it is, or less the dashes that end the flags.
pub parse_words :
    (arg : String) (args us : List String) (vs : List (String × Value))
    → parse [] (arg ∷ args) ≡ parsed vs us
    → (us ≡ arg ∷ args) ⊎ ((us ≡ args) × (classify arg ≡ terminator))
unfolding parse
parse_words arg args us vs h = taken arg args us vs (classify arg) _ h
