-- ===== src/Go/Ints/Reading.antt =====
-- Numbers read back from their decimal digits.
use Prim.Native.Char.{Char, code}
use Prim.Native.Nat.{◌*◌, ◌-◌, ◌/◌, ◌%◌}
use text.Mathlib.TextLemmas.{cons-append, nil-append, append-nil, append_assoc}
use openldap_operator.Base.{
  ℕ, zero, suc, ◌+◌, ◌<◌, String, ◌<>◌, ◌≡◌, refl, sym, ◌∙◌, ap, inl, inr, Bool, true, false,
  Bool-cases, nat_eq, arith, if◌then◌else◌,
}
use openldap_operator.Go.Ints.{ℤ, pos, negsuc, digits, decimal, itoa}

-- The digits of a text, after those that were read before.
abbrev pub read_digits : ℕ → String → ℕ
read_digits acc String.[] = acc
read_digits acc (String.◌∷◌ c s) = read_digits (acc * 10 + (code c - 48)) s

read_digits-append :
    (acc : ℕ) (s t : String) → read_digits acc (s <> t) ≡ read_digits (read_digits acc s) t
read_digits-append acc String.[] t = rw (nil-append t) refl
read_digits-append acc (String.◌∷◌ c s) t =
    rw (cons-append c s t) (read_digits-append (acc * 10 + (code c - 48)) s t)

read_digits-last : (acc d : ℕ) → d < 10 → read_digits acc (digits "0123456789" d) ≡ acc * 10 + d
read_digits-last acc zero h = refl
read_digits-last acc (suc zero) h = refl
read_digits-last acc (suc (suc zero)) h = refl
read_digits-last acc (suc (suc (suc zero))) h = refl
read_digits-last acc (suc (suc (suc (suc zero)))) h = refl
read_digits-last acc (suc (suc (suc (suc (suc zero))))) h = refl
read_digits-last acc (suc (suc (suc (suc (suc (suc zero)))))) h = refl
read_digits-last acc (suc (suc (suc (suc (suc (suc (suc zero))))))) h = refl
read_digits-last acc (suc (suc (suc (suc (suc (suc (suc (suc zero)))))))) h = refl
read_digits-last acc (suc (suc (suc (suc (suc (suc (suc (suc (suc zero))))))))) h = refl
read_digits-last acc (suc (suc (suc (suc (suc (suc (suc (suc (suc (suc d)))))))))) h = omega arith

is_zero-eq : (m : ℕ) → nat_eq m 0 ≡ true → m ≡ 0
is_zero-eq m e = ground arith

is_zero-ne : (m : ℕ) → nat_eq m 0 ≡ false → 0 < m
is_zero-ne m e = ground arith

below-ten : (n : ℕ) → n % 10 < 10
below-ten n = omega arith

-- The digits of a number read as the number, if the fuel is more than it.
pub read_digits-decimal : (fuel n : ℕ) → n < fuel → read_digits 0 (decimal fuel n) ≡ n
unfolding decimal
read_digits-decimal zero n h = omega arith
read_digits-decimal (suc fuel) n h = elim (Bool-cases (nat_eq (n / 10) 0)) [
  | inl e ↦
      let none_left : n / 10 ≡ 0 = is_zero-eq (n / 10) e in
      rw e (read_digits-last 0 (n % 10) (below-ten n) ∙ omega arith)
  | inr e ↦
      let some_left : 0 < n / 10 = is_zero-ne (n / 10) e in
      let front = read_digits-decimal fuel (n / 10) (omega arith) in
      rw e (
        read_digits-append 0 (decimal fuel (n / 10)) _
        ∙ read_digits-last _ (n % 10) (below-ten n)
        ∙ omega arith)
]

-- Whether the first character is a minus sign.
abbrev pub is_negative : String → Bool
is_negative String.[] = false
is_negative (String.◌∷◌ c s) = nat_eq (code c) b'-'

-- The rest after the first character.
abbrev pub tail : String → String
tail String.[] = ""
tail (String.◌∷◌ c s) = s

-- A number with its sign.
unfoldable pub read_int : String → ℤ
read_int s =
    if is_negative s
    then (elim (read_digits 0 (tail s)) [ zero ↦ pos 0 | suc n ↦ negsuc n ])
    else pos (read_digits 0 s)

-- No character is a minus sign.
abbrev Unsigned : String → Type 0
Unsigned String.[] = Unit
Unsigned (String.◌∷◌ c s) = (nat_eq (code c) b'-' ≡ false) × Unsigned s

is_negative-digits :
    (s : String) (d : ℕ) (t : String)
    → Unsigned s
    → is_negative t ≡ false
    → is_negative (digits s d <> t) ≡ false
is_negative-digits String.[] d t u h = ap is_negative (nil-append t) ∙ h
is_negative-digits (String.◌∷◌ c s) zero t u h = ap is_negative (cons-append c "" t) ∙ u.0
is_negative-digits (String.◌∷◌ c s) (suc d) t u h = is_negative-digits s d t u.1 h

decimals-Unsigned : Unsigned "0123456789"
decimals-Unsigned =
    (refl, (refl, (refl, (refl, (refl, (refl, (refl, (refl, (refl, (refl, tt))))))))))

is_negative-decimal :
    (fuel n : ℕ) (t : String) → is_negative t ≡ false → is_negative (decimal fuel n <> t) ≡ false
unfolding decimal
is_negative-decimal zero n t h = ap is_negative (nil-append t) ∙ h
is_negative-decimal (suc fuel) n t h = elim (Bool-cases (nat_eq (n / 10) 0)) [
  | inl e ↦ rw e (is_negative-digits "0123456789" (n % 10) t decimals-Unsigned h)
  | inr e ↦ rw e (
      ap is_negative (append_assoc (decimal fuel (n / 10)) (digits "0123456789" (n % 10)) t)
      ∙ is_negative-decimal fuel (n / 10) _
          (is_negative-digits "0123456789" (n % 10) t decimals-Unsigned h))
]

-- What Itoa writes is read back.
pub read_int-itoa : (i : ℤ) → read_int (itoa i) ≡ i
unfolding read_int itoa
read_int-itoa (pos n) =
    rw
      (
        sym (ap is_negative (append-nil (decimal (suc n) n)))
            ∙ is_negative-decimal (suc n) n "" refl,
        read_digits-decimal (suc n) n (omega arith),
      )
      refl
read_int-itoa (negsuc n) =
    let front : is_negative ("-" <> decimal (suc (suc n)) (n + 1)) ≡ true =
      after_sign is_negative "-" (decimal (suc (suc n)) (n + 1)) refl in
    let rest : tail ("-" <> decimal (suc (suc n)) (n + 1)) ≡ decimal (suc (suc n)) (n + 1) =
      after_sign tail "-" (decimal (suc (suc n)) (n + 1))
        (nil-append (decimal (suc (suc n)) (n + 1))) in
    let more : n + 1 < suc (suc n) = omega arith in
    let same : n + 1 ≡ suc n = omega arith in
    let value : read_digits 0 (decimal (suc (suc n)) (n + 1)) ≡ suc n =
      read_digits-decimal (suc (suc n)) (n + 1) more ∙ same in
    rw (front, rest, value) refl
  where
    after_sign :
        {A : Type 0} {a : A} (f : String → A) (c : Char) (s : String)
        → f (String.◌∷◌ c ("" <> s)) ≡ a
        → f (String.◌∷◌ c "" <> s) ≡ a
    after_sign f c s h = ap f (cons-append c "" s) ∙ h
