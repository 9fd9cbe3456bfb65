-- ===== src/Go/Ints.antt =====
-- `int`, and `strconv.Itoa`.
pub mod Reading
use Prim.Native.Nat.{◌/◌, ◌%◌}
use openldap_operator.Base.{ℕ, zero, suc, ◌+◌, String, ◌<>◌, nat_eq, if◌then◌else◌}

-- `negsuc n` is -(n + 1).
pub data ℤ : Type 0 where
  pos : ℕ → ℤ
  negsuc : ℕ → ℤ

abbrev pub digits : String → ℕ → String
digits String.[] n = ""
digits (String.◌∷◌ c s) zero = String.◌∷◌ c ""
digits (String.◌∷◌ c s) (suc n) = digits s n

-- The decimal digits of a number; a unit of fuel for each is enough.
unfoldable pub decimal : ℕ → ℕ → String
decimal zero n = ""
decimal (suc fuel) n =
    let front = decimal fuel (n / 10) in
    let last = digits "0123456789" (n % 10) in if nat_eq (n / 10) 0 then last else front <> last

-- `strconv.Itoa`
unfoldable pub itoa : ℤ → String
unfolding decimal
itoa (pos n) = decimal (suc n) n
itoa (negsuc n) = "-" <> decimal (suc (suc n)) (n + 1)
