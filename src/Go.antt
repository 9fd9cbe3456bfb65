-- ===== src/Go.antt =====
-- What the program uses of Go itself: `error` values, results with panics, and calls that read and
-- write the world outside (the cluster and the directory server), threaded explicitly.
pub mod Strings
pub mod Ints
pub mod Flags
pub mod Calls
pub mod Preserves
pub mod Ensures
pub mod Fails
pub mod Changes
pub mod Leads
use openldap_operator.Base.{ℕ, String, ◌<>◌, Option, none, some, Bool, List, [], ◌∷◌, nat_eq}
use mathlib.Core.Bool.{false}

-- An error that a library returned, as far as this program looks at it: its text, whether it is the
-- API server's `NotFound`, and the LDAP result code if it has one.
pub record Fault : Type 0 where
  pub text : String
  pub not_found : Bool
  pub result_code : Option ℕ

-- `goldap.IsErrorWithCode`
unfoldable pub is_error_with_code : Fault → ℕ → Bool
is_error_with_code f code = elim f.result_code [ none ↦ false | some c ↦ nat_eq c code ]

-- The `error` values of the program: a library's, `fmt.Errorf` of a text, and
-- `fmt.Errorf("…: %w", err)`.
pub data Error : Type 0 where
  fault : Fault → Error
  errorf : String → Error
  wrapf : String → Error → Error

-- `err.Error()`
unfoldable pub message : Error → String
message (fault f) = f.text
message (errorf text) = text
message (wrapf text e) = text <> (": " <> message e)

-- How a call ends: with a value, with an error, by a panic, or (in a model of an unbounded
-- recursion) not within the fuel.
pub data Result {ℓ κ} (E : Type ℓ) (A : Type κ) : Type (ℓ ⊔ κ) where
  ok : A → Result E A
  err : E → Result E A
  panic : String → Result E A
  unfinished : Result E A

-- A call in a world `S`.
abbrev pub M : Type 0 → Type 0 → Type 0 → Type 0
M S E A = S → Result E A × S

-- The errors of a result, changed.
abbrev pub map_err {ℓ κ μ} :
    {E : Type ℓ} {F : Type κ} {A : Type μ} → (E → F) → Result E A → Result F A
map_err g (ok a) = ok a
map_err g (err e) = err (g e)
map_err g (panic p) = panic p
map_err g unfinished = unfinished

-- The value of a result, changed.
abbrev pub map_ok {ℓ κ μ} :
    {E : Type ℓ} {A : Type κ} {B : Type μ} → (A → B) → Result E A → Result E B
map_ok g (ok a) = ok (g a)
map_ok g (err e) = err e
map_ok g (panic p) = panic p
map_ok g unfinished = unfinished

-- The calls below stay shut in the proofs that go by their laws; opening `>>=` opens them all.
module _ {S A : Type 0} where
  unfoldable pub pure : {E : Type 0} → A → M S E A
  pure a s = (ok a, s)

  unfoldable pub lift : {E : Type 0} → Result E A → M S E A
  lift r s = (r, s)

  -- `if err != nil { return err }` after a library's call.
  unfoldable pub call : M S Fault A → M S Error A
  call m s = (map_err fault (m s).0, (m s).1)

  -- `if err != nil { return fmt.Errorf("text: %w", err) }` after a library's call.
  unfoldable pub call_or : String → M S Fault A → M S Error A
  call_or text m s = (map_err (λ f. wrapf text (fault f)) (m s).0, (m s).1)

  -- After a call of the program, with what is made of its error: `return err` itself or wrapped.
  unfoldable pub on_err : (Error → Error) → M S Error A → M S Error A
  on_err f m s = (map_err f (m s).0, (m s).1)

  -- `defer f()`: `f` runs however the body ends.
  unfoldable pub finally : {E : Type 0} → M S E A → (S → S) → M S E A
  finally m f s = ((m s).0, f (m s).1)

module _ {S : Type 0} where
  -- A library's call that returns nothing.
  unfoldable pub effect : {E : Type 0} → (S → S) → M S E (Unit {0})
  effect f s = (ok tt, f s)

  -- A library's call that returns a value, whatever it says.
  unfoldable pub ask : {E A : Type 0} → (S → A × S) → M S E A
  ask m s = (ok (m s).0, (m s).1)

  -- A call whose result is looked at, whatever it is.
  unfoldable pub attempt : {E F A : Type 0} → M S E A → M S F (Result E A)
  attempt m s = (ok (m s).0, (m s).1)

  -- The rest of a call, after a result.
  abbrev pub continue : {E A B : Type 0} → (A → M S E B) → Result E A → M S E B
  continue f (ok a) s = f a s
  continue f (err e) s = (err e, s)
  continue f (panic p) s = (panic p, s)
  continue f unfinished s = (unfinished, s)

  infixl 5 ◌>>=◌ ◌>>◌
  unfoldable pub ◌>>=◌ : {E A B : Type 0} → M S E A → (A → M S E B) → M S E B
  unfolding pure lift call call_or on_err finally effect ask attempt
  ◌>>=◌ m f s = continue f (m s).0 (m s).1

  abbrev pub ◌>>◌ : {E B : Type 0} → M S E (Unit {0}) → M S E B → M S E B
  m >> k = m >>= λ _. k

  -- `for _, a := range l { if err := f(a); err != nil { return err } }`
  unfoldable pub for_each : {E A : Type 0} → (A → M S E (Unit {0})) → List A → M S E (Unit {0})
  for_each f [] = pure tt
  for_each f (a ∷ l) = f a >> for_each f l

-- What a stage makes of the error of a call: the value goes to `next`, the error to `handle`.
unfoldable pub on_result :
    {S A B : Type 0} → M S Error A → (Error → M S Error B) → (A → M S Error B) → M S Error B
on_result m handle next s = elim (m s).0 [
  | ok a ↦ next a (m s).1
  | err e ↦ handle e (m s).1
  | panic p ↦ (panic p, (m s).1)
  | unfinished ↦ (unfinished, (m s).1)
]

-- `if err != nil { … }` for an error that was returned beside a value, then the rest.
unfoldable pub unless :
    {S A : Type 0} → Option Fault → (Fault → M S Error A) → M S Error A → M S Error A
unless none handle rest = rest
unless (some f) handle rest = handle f
