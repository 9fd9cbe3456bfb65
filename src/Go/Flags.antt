-- ===== src/Go/Flags.antt =====
-- What the program uses of Go's package flag: a set of text and Boolean flags, each with the variable
-- that it sets (a field of `O`), and the parsing of a command line.
use Prim.Native.Char.{code}
use openldap_operator.Base.{
  String, ◌==◌, Bool, true, false, ◌||◌, Option, none, some, List, [], ◌∷◌, nat_eq, if◌then◌else◌,
}
use openldap_operator.Go.{Result, ok, err}

-- What a flag does with a value; nothing is returned where it does not accept the value.
pub record Flag (O : Type 0) : Type 0 where
  pub name : String
  pub is_bool : Bool
  pub set : String → O → Option O

-- The errors of `FlagSet.Parse`
pub data FlagError : Type 0 where
  bad_syntax : String → FlagError
  not_defined : String → FlagError
  help : FlagError
  invalid_value : String → String → FlagError
  needs_argument : String → FlagError

-- An argument: `--`, one that is not a flag, or the text after one dash or two.
pub data Argument : Type 0 where
  terminator positional : Argument
  flag : String → Argument

unfoldable pub after_two_dashes : String → Argument
after_two_dashes String.[] = terminator
after_two_dashes (String.◌∷◌ c s) = flag (String.◌∷◌ c s)

unfoldable pub after_dash : String → Argument
unfolding after_two_dashes
after_dash String.[] = positional
after_dash (String.◌∷◌ c s) =
    if nat_eq (code c) b'-' then after_two_dashes s else flag (String.◌∷◌ c s)

unfoldable pub read_argument : String → Argument
unfolding after_dash
read_argument String.[] = positional
read_argument (String.◌∷◌ c s) = if nat_eq (code c) b'-' then after_dash s else positional

-- A name, and the value after the first `=` if there is one.
unfoldable pub cut_value : String → String × Option String
cut_value String.[] = ("", none)
cut_value (String.◌∷◌ c s) =
    let (name, value) = cut_value s in
    if nat_eq (code c) b'=' then ("", some s) else (String.◌∷◌ c name, value)

-- A name may not be empty or begin with `-` or `=`.
unfoldable pub is_bad_name : String → Bool
is_bad_name String.[] = true
is_bad_name (String.◌∷◌ c s) = nat_eq (code c) b'-' || nat_eq (code c) b'='

unfoldable pub is_help : String → Bool
is_help name = name == "help" || name == "h"

unfoldable pub find_flag : {O : Type 0} → List (Flag O) → String → Option (Flag O)
find_flag [] name = none
find_flag (f ∷ fs) name = if f.name == name then some f else find_flag fs name

-- `strconv.ParseBool`
unfoldable pub parse_bool : String → Option Bool
parse_bool s =
    if s == "1" || s == "t" || s == "T" || s == "true" || s == "TRUE" || s == "True"
    then some true
    else if s == "0" || s == "f" || s == "F" || s == "false" || s == "FALSE" || s == "False"
    then some false
    else none

-- What is made of a value: the error, or the rest.
unfoldable pub set_value :
    {O : Type 0} → Flag O → String → O → (O → Result FlagError O) → Result FlagError O
set_value f value o rest = elim (f.set value o) [
  | none ↦ err (invalid_value f.name value)
  | some o' ↦ rest o'
]

-- A flag that was found, with its value if that is in the same argument: `later` goes on where the
-- value is the next argument.
unfoldable pub use_flag :
    {O : Type 0}
    → Flag O
    → Option String
    → O
    → (O → Result FlagError O)
    → Result FlagError O
    → Result FlagError O
unfolding set_value
use_flag f (some value) o rest later = set_value f value o rest
use_flag f none o rest later = if f.is_bool then set_value f "true" o rest else later

-- The text of a flag, after its dashes.
unfoldable pub named_flag :
    {O : Type 0}
    → List (Flag O)
    → String × Option String
    → O
    → (O → Result FlagError O)
    → (Flag O → Result FlagError O)
    → Result FlagError O
unfolding use_flag is_help find_flag
named_flag flags (name, value) o rest later = elim (find_flag flags name) [
  | none ↦ err (if is_help name then help else not_defined name)
  | some f ↦ use_flag f value o rest (later f)
]

unfoldable pub one_flag :
    {O : Type 0}
    → List (Flag O)
    → String
    → O
    → (O → Result FlagError O)
    → (Flag O → Result FlagError O)
    → Result FlagError O
unfolding named_flag cut_value is_bad_name
one_flag flags text o rest later =
    if is_bad_name text
    then err (bad_syntax text)
    else named_flag flags (cut_value text) o rest later

-- `FlagSet.Parse`, with the flag that still waits for its value. Flags are read up to the first
-- argument that is none, and the arguments from there on are left.
unfoldable pub parse_flags :
    {O : Type 0} → List (Flag O) → Option (Flag O) → List String → O → Result FlagError O
unfolding one_flag read_argument
parse_flags flags none [] o = ok o
parse_flags flags (some f) [] o = err (needs_argument f.name)
parse_flags flags (some f) (value ∷ args) o = set_value f value o (parse_flags flags none args)
parse_flags flags none (a ∷ args) o = elim (read_argument a) [
  | terminator ↦ ok o
  | positional ↦ ok o
  | flag text ↦
      one_flag flags text o (parse_flags flags none args) (λ f. parse_flags flags (some f) args o)
]
