-- ===== src/Go/Leads.antt =====
-- Calls that lead from one property of the world to a weaker one, however they end: a rule for each
-- way to build a call whose last part does so.
use openldap_operator.Base.{◌≡◌, refl, Bool, true, false, Option, none, some, if◌then◌else◌}
use openldap_operator.Go.{
  Fault, Error, on_result, unless, Result, ok, err, panic, unfinished, M, attempt, continue, ◌>>=◌,
}
use openldap_operator.Go.Preserves.{Preserves}

pub record Leads {S E A : Type 0} (P Q : S → Type 0) (m : M S E A) : Type 0 where
  pub at : (s : S) → P s → Q (m s).1

pub Preserves-of_Leads :
    {S E A : Type 0} {P : S → Type 0} {m : M S E A} → Leads P P m → Preserves P m
Preserves-of_Leads h = record { at = h.at }

pub Leads-of_Preserves :
    {S E A : Type 0} {P : S → Type 0} {m : M S E A} → Preserves P m → Leads P P m
Leads-of_Preserves h = record { at = h.at }

module _ {S : Type 0} {P Q : S → Type 0} (weaken : (s : S) → P s → Q s) where
  pub Leads-weaken : {E A : Type 0} (m : M S E A) → Preserves P m → Leads P Q m
  Leads-weaken m h = record { at = λ s p. weaken _ (h.at s p) }

  -- The rest may use what the first call returned where the property held.
  pub Leads->>=_from :
      {E A B : Type 0} (m : M S E A) (f : A → M S E B)
      → Preserves P m
      → ((s : S) → P s → (a : A) → (m s).0 ≡ ok a → Leads P Q (f a))
      → Leads P Q (m >>= f)
  unfolding ◌>>=◌
  Leads->>=_from m f h k = record { at = λ s p. go (m s).0 (m s).1 (λ a e. k s p a e) (h.at s p) }
    where
      go :
          (r : Result _ _) (s : S)
          → ((a : _) → r ≡ ok a → Leads P Q (f a))
          → P s
          → Q (continue f r s).1
      go (ok a) s j p = (j a refl).at s p
      go (err e) s j p = weaken s p
      go (panic m) s j p = weaken s p
      go unfinished s j p = weaken s p

  pub Leads-if :
      {E A : Type 0} (b : Bool) (m n : M S E A)
      → (b ≡ true → Leads P Q m)
      → (b ≡ false → Leads P Q n)
      → Leads P Q (if b then m else n)
  Leads-if true m n h k = h refl
  Leads-if false m n h k = k refl

  pub Leads-unless :
      {A : Type 0} (e : Option Fault) (handle : Fault → M S Error A) (rest : M S Error A)
      → ((f : Fault) → Preserves P (handle f))
      → Leads P Q rest
      → Leads P Q (unless e handle rest)
  unfolding unless
  Leads-unless none handle rest h j = j
  Leads-unless (some f) handle rest h j = Leads-weaken (handle f) (h f)

  pub Leads-on_result :
      {A B : Type 0} (m : M S Error A) (handle : Error → M S Error B) (next : A → M S Error B)
      → Preserves P m
      → ((e : Error) → Preserves P (handle e))
      → ((s : S) (a : A) → (m s).0 ≡ ok a → Leads P Q (next a))
      → Leads P Q (on_result m handle next)
  unfolding on_result
  Leads-on_result {A} {B} m handle next h i j = record {
    at = λ s p. go (m s).0 (m s).1 (h.at s p) (λ a e. j s a e);
  }
    where
      go :
          (r : Result Error A) (t : S)
          → P t
          → ((a : A) → r ≡ ok a → Leads P Q (next a))
          → Q (on_result {B = B} (λ s. (r, t)) handle next t).1
      go (ok a) t p j = (j a refl).at t p
      go (err e) t p j = weaken _ ((i e).at t p)
      go (panic text) t p j = weaken t p
      go unfinished t p j = weaken t p

module _ {S : Type 0} {P Q : S → Type 0} where
  -- The first part of a sequence does so, and the rest preserves what it led to.
  pub Leads->>=_first :
      {E A B : Type 0} (m : M S E A) (f : A → M S E B)
      → Leads P Q m
      → ((a : A) → Preserves Q (f a))
      → Leads P Q (m >>= f)
  unfolding ◌>>=◌
  Leads->>=_first m f h k = record { at = λ s p. go (m s).0 (m s).1 (h.at s p) }
    where
      go : (r : Result _ _) (s : S) → Q s → Q (continue f r s).1
      go (ok a) s q = (k a).at s q
      go (err e) s q = q
      go (panic m) s q = q
      go unfinished s q = q

  pub Leads-on_result_first :
      {A B : Type 0} (m : M S Error A) (handle : Error → M S Error B) (next : A → M S Error B)
      → Leads P Q m
      → ((e : Error) → Preserves Q (handle e))
      → ((a : A) → Preserves Q (next a))
      → Leads P Q (on_result m handle next)
  unfolding on_result
  Leads-on_result_first {A} {B} m handle next h i j = record {
    at = λ s p. go (m s).0 (m s).1 (h.at s p);
  }
    where
      go : (r : Result Error A) (t : S) → Q t → Q (on_result {B = B} (λ s. (r, t)) handle next t).1
      go (ok a) t q = (j a).at t q
      go (err e) t q = (i e).at t q
      go (panic text) t q = q
      go unfinished t q = q

  pub Leads-attempt : {E F A : Type 0} (m : M S E A) → Leads P Q m → Leads P Q (attempt {F = F} m)
  unfolding attempt
  Leads-attempt m h = record { at = h.at }
