-- ===== src/Go/Strings.antt =====
-- What the program uses of Go's package strings: a separator of one character, found as `code c`
-- is compared with `sep`.
pub mod Pieces
use Prim.Native.Char.{Char, code}
use openldap_operator.Base.{
  ℕ, String, ◌<>◌, ◌≡◌, refl, Bool, List, [], ◌∷◌, arith, nat_eq, if◌then◌else◌,
}
use text.Mathlib.TextLemmas.{append_assoc, cons-append, nil-append}

-- `strings.ReplaceAll(s, sep, new)`
unfoldable pub replace_all : String → ℕ → String → String
replace_all String.[] sep new = ""
replace_all (String.◌∷◌ c s) sep new =
    (if nat_eq (code c) sep then new else String.◌∷◌ c "") <> replace_all s sep new

-- A character in front of the first piece.
unfoldable pub grow : Char → List String → List String
grow c [] = String.◌∷◌ c "" ∷ []
grow c (p ∷ ps) = String.◌∷◌ c p ∷ ps

-- `strings.Split(s, sep)`
unfoldable pub split : String → ℕ → List String
unfolding grow
split String.[] sep = "" ∷ []
split (String.◌∷◌ c s) sep =
    let rest = split s sep in if nat_eq (code c) sep then "" ∷ rest else grow c rest

-- `strings.Join(pieces, sep)`
unfoldable pub join : List String → String → String
join [] sep = ""
join (p ∷ []) sep = p
join (p ∷ q ∷ ps) sep = p <> (sep <> join (q ∷ ps) sep)
