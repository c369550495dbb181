-- ===== src/Service/Main/Arguments.antt =====
-- The flags of cmd/server/main.go.
use lfx_v2_persona_service.Prelude.{
  String, Bool-cases, inl, inr, some, List, [], ◌∷◌, ◌++◌, if◌then◌else◌, ◌≡◌, ap, sym,
}
use lfx_v2_persona_service.Service.Main.{Options, parse_options}

-- The flags that give options.
abbrev pub print_options : Options → List String
print_options o = (if o.dbg then "-d" ∷ [] else []) ++ ("-p" ∷ o.port ∷ "--bind" ∷ o.bind ∷ [])

-- Arguments that give options, behind which a second pair of dashes ends the flags, are read back.
pub parse_options-print_options :
    (o : Options) (rest : List String) → parse_options (print_options o ++ ("--" ∷ rest)) ≡ some o
unfolding parse_options
parse_options-print_options o rest = elim (Bool-cases o.dbg) [
  | inl f ↦ simp f (ap (λ b. some (record o { dbg = b })) (sym f))
  | inr f ↦ simp f (ap (λ b. some (record o { dbg = b })) (sym f))
]
