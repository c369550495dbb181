-- ===== src/Flags.antt =====
-- Go's package flag, as cmd/server/main.go and gen/http/cli/persona/cli.go use it: flags of a Boolean or
-- of a text, and what `Parse` makes of a list of arguments.
pub mod Laws
use Prim.Native.Char.{Char, code}
use lfx_v2_persona_service.Prelude.{
  String, Bool, true, false, ◌||◌, ◌==◌, Option, none, some, List, [], ◌∷◌, lookup, same_num,
  if◌then◌else◌,
}

pub data Kind : Type 0 where
  of_bool of_string : Kind

-- The flags that are defined, by name.
abbrev pub FlagSet : Type 0
FlagSet = List (String × Kind)

pub data Value : Type 0 where
  on : Bool → Value
  text : String → Value

-- The errors of `Parse`: `ErrHelp`, and those that name an argument or a flag.
pub data FlagError : Type 0 where
  help_requested : FlagError
  bad_syntax : String → FlagError
  not_defined : String → FlagError
  invalid_boolean : String → String → FlagError
  needs_argument : String → FlagError

-- The values that were set, in order, and the arguments that are left.
pub data Parsed : Type 0 where
  parsed : List (String × Value) → List String → Parsed
  refused : FlagError → Parsed

-- What one argument is: no flag, the end of the flags, a flag of bad syntax, or a flag with its name and
-- the value behind an equals sign, if any.
pub data Argument : Type 0 where
  plain terminator malformed : Argument
  flag : String → Option String → Argument

-- A name up to the first equals sign, and what is behind it.
split_value : String → String × Option String
split_value String.[] = ("", none)
split_value (String.◌∷◌ c s) =
    let rest = split_value s in
    if same_num (code c) b'=' then ("", some s) else (String.◌∷◌ c rest.0, rest.1)

-- What stands behind the dashes; the first character is no equals sign.
named : String → Argument
unfolding split_value
named String.[] = malformed
named (String.◌∷◌ c s) =
    if same_num (code c) b'-' || same_num (code c) b'='
    then malformed
    else (let (name, value) = split_value s in flag (String.◌∷◌ c name) value)

unfoldable pub classify : String → Argument
unfolding named
classify String.[] = plain
classify (String.◌∷◌ c String.[]) = plain
classify (String.◌∷◌ c (String.◌∷◌ d s)) =
    if same_num (code c) b'-'
    then (if same_num (code d) b'-'
        then (if s == "" then terminator else named s)
        else named (String.◌∷◌ d s))
    else plain

-- `strconv.ParseBool`
unfoldable pub parse_bool : String → Option Bool
parse_bool s =
    if s == "1" || s == "t" || s == "T" || s == "true" || s == "TRUE" || s == "True"
    then some true
    else if s == "0" || s == "f" || s == "F" || s == "false" || s == "FALSE" || s == "False"
    then some false
    else none

abbrev and_then : String → Value → Parsed → Parsed
and_then name v (parsed vs rest) = parsed ((name, v) ∷ vs) rest
and_then name v (refused e) = refused e

-- A flag of a kind, where `continue` parses what follows, its argument being the value of the flag that
-- it is given, if any.
set_flag : String → Option String → Kind → (Option String → Parsed) → Parsed
unfolding parse_bool
set_flag name none of_bool continue = and_then name (on true) (continue none)
set_flag name (some v) of_bool continue = elim (parse_bool v) [
  | none ↦ refused (invalid_boolean v name)
  | some b ↦ and_then name (on b) (continue none)
]
set_flag name none of_string continue = continue (some name)
set_flag name (some v) of_string continue = and_then name (text v) (continue none)

defined : FlagSet → String → Option String → (Option String → Parsed) → Parsed
unfolding set_flag
defined flags name value continue = elim (lookup name flags) [
  | none ↦ refused (if name == "help" || name == "h" then help_requested else not_defined name)
  | some kind ↦ set_flag name value kind continue
]

take_argument : FlagSet → String → List String → Argument → (Option String → Parsed) → Parsed
unfolding defined
take_argument flags arg args plain continue = parsed [] (arg ∷ args)
take_argument flags arg args terminator continue = parsed [] args
take_argument flags arg args malformed continue = refused (bad_syntax arg)
take_argument flags arg args (flag name value) continue = defined flags name value continue

-- The loop of `Parse`; the first argument is the flag of text that waits for its value, if any.
unfoldable pub parse_from : FlagSet → Option String → List String → Parsed
unfolding take_argument classify
parse_from flags none [] = parsed [] []
parse_from flags (some name) [] = refused (needs_argument name)
parse_from flags none (arg ∷ args) =
    take_argument flags arg args (classify arg) (λ waiting. parse_from flags waiting args)
parse_from flags (some name) (arg ∷ args) = and_then name (text arg) (parse_from flags none args)

-- `Parse`
unfoldable pub parse : FlagSet → List String → Parsed
unfolding parse_from
parse flags args = parse_from flags none args

-- The value of a flag: the one that was set last.
unfoldable pub value_of : String → Value → List (String × Value) → Value
value_of name v [] = v
value_of name v ((n, w) ∷ vs) = value_of name (if n == name then w else v) vs
