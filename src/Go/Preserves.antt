-- ===== src/Go/Preserves.antt =====
-- Properties of the world that a call preserves, however it ends: a rule for each way to build one.
use openldap_operator.Base.{
  List, [], ◌∷◌, String, Option, none, some, ◌≡◌, refl, Bool, true, false, if◌then◌else◌,
}
use openldap_operator.Go.{
  Fault, Error, on_result, unless, Result, ok, err, panic, unfinished, M, pure, lift, call_or,
  on_err, effect, ask, attempt, continue, finally, for_each, ◌>>=◌,
}

pub record Preserves {S E A : Type 0} (P : S → Type 0) (m : M S E A) : Type 0 where
  pub at : (s : S) → P s → P (m s).1

module _ {S : Type 0} {P : S → Type 0} where
  pub Preserves-pure : {E A : Type 0} (a : A) → Preserves P (pure {S = S} {A = A} {E = E} a)
  unfolding pure
  Preserves-pure a = record { at = λ s h. h }

  pub Preserves-lift : {E A : Type 0} (r : Result E A) → Preserves P (lift {S = S} r)
  unfolding lift
  Preserves-lift r = record { at = λ s h. h }

  pub Preserves-effect :
      {E : Type 0} (f : S → S) → ((s : S) → P s → P (f s)) → Preserves P (effect {E = E} f)
  unfolding effect
  Preserves-effect f h = record { at = h }

  pub Preserves-ask :
      {E A : Type 0} (m : S → A × S) → ((s : S) → P s → P (m s).1) → Preserves P (ask {E = E} m)
  unfolding ask
  Preserves-ask m h = record { at = h }

  pub Preserves-attempt :
      {E F A : Type 0} (m : M S E A) → Preserves P m → Preserves P (attempt {F = F} m)
  unfolding attempt
  Preserves-attempt m h = record { at = h.at }

  pub Preserves-call_or :
      {A : Type 0} (text : String) (m : M S Fault A) → Preserves P m → Preserves P (call_or text m)
  unfolding call_or
  Preserves-call_or text m h = record { at = h.at }

  pub Preserves-on_err :
      {A : Type 0} (f : Error → Error) (m : M S Error A) → Preserves P m → Preserves P (on_err f m)
  unfolding on_err
  Preserves-on_err f m h = record { at = h.at }

  pub Preserves-finally :
      {E A : Type 0} (m : M S E A) (f : S → S)
      → Preserves P m
      → ((s : S) → P s → P (f s))
      → Preserves P (finally m f)
  unfolding finally
  Preserves-finally m f h k = record { at = λ s p. k (m s).1 (h.at s p) }

  pub Preserves-if :
      {E A : Type 0} (b : Bool) (m n : M S E A)
      → (b ≡ true → Preserves P m)
      → (b ≡ false → Preserves P n)
      → Preserves P (if b then m else n)
  Preserves-if true m n h k = h refl
  Preserves-if false m n h k = k refl

  continue-preserves :
      {E A B : Type 0} (f : A → M S E B) (r : Result E A) (s : S)
      → ((a : A) → r ≡ ok a → Preserves P (f a))
      → P s
      → P (continue f r s).1
  continue-preserves f (ok a) s h p = (h a refl).at s p
  continue-preserves f (err e) s h p = p
  continue-preserves f (panic m) s h p = p
  continue-preserves f unfinished s h p = p

  pub Preserves->>= :
      {E A B : Type 0} (m : M S E A) (f : A → M S E B)
      → Preserves P m
      → ((a : A) → Preserves P (f a))
      → Preserves P (m >>= f)
  unfolding ◌>>=◌
  Preserves->>= m f h k = record {
    at = λ s p. continue-preserves f (m s).0 (m s).1 (λ a e. k a) (h.at s p);
  }

  -- The rest may use that the first call returned the value.
  pub Preserves->>=_value :
      {E A B : Type 0} (m : M S E A) (f : A → M S E B)
      → Preserves P m
      → ((s : S) (a : A) → (m s).0 ≡ ok a → Preserves P (f a))
      → Preserves P (m >>= f)
  unfolding ◌>>=◌
  Preserves->>=_value m f h k = record {
    at = λ s p. continue-preserves f (m s).0 (m s).1 (λ a e. k s a e) (h.at s p);
  }

  -- The rest may use what the first call returned where the property held.
  pub Preserves->>=_from :
      {E A B : Type 0} (m : M S E A) (f : A → M S E B)
      → Preserves P m
      → ((s : S) → P s → (a : A) → (m s).0 ≡ ok a → Preserves P (f a))
      → Preserves P (m >>= f)
  unfolding ◌>>=◌
  Preserves->>=_from m f h k = record {
    at = λ s p. continue-preserves f (m s).0 (m s).1 (λ a e. k s p a e) (h.at s p);
  }

  -- A library's reply, then what depends on it.
  pub Preserves-reply :
      {E A B : Type 0} (ask_for : S → A × S) (use_reply : A → M S E B)
      → ((s : S) → P s → P (ask_for s).1)
      → ((a : A) → Preserves P (use_reply a))
      → Preserves P (λ s. use_reply (ask_for s).0 (ask_for s).1)
  Preserves-reply ask_for use_reply h j = record { at = λ s p. (j _).at _ (h s p) }

  pub Preserves-on_result :
      {A B : Type 0} (m : M S Error A) (handle : Error → M S Error B) (next : A → M S Error B)
      → Preserves P m
      → ((e : Error) → Preserves P (handle e))
      → ((s : S) (a : A) → (m s).0 ≡ ok a → Preserves P (next a))
      → Preserves P (on_result m handle next)
  unfolding on_result
  Preserves-on_result {A} {B} m handle next h i j = record {
    at = λ s p. go (m s).0 (m s).1 (h.at s p) (λ a e. j s a e);
  }
    where
      go :
          (r : Result Error A) (t : S)
          → P t
          → ((a : A) → r ≡ ok a → Preserves P (next a))
          → P (on_result {B = B} (λ s. (r, t)) handle next t).1
      go (ok a) t p j = (j a refl).at t p
      go (err e) t p j = (i e).at t p
      go (panic text) t p j = p
      go unfinished t p j = p

  pub Preserves-unless :
      {A : Type 0} (e : Option Fault) (handle : Fault → M S Error A) (rest : M S Error A)
      → ((f : Fault) → Preserves P (handle f))
      → Preserves P rest
      → Preserves P (unless e handle rest)
  unfolding unless
  Preserves-unless none handle rest h j = j
  Preserves-unless (some f) handle rest h j = h f

module _ {S : Type 0} {P : S → Type 0} where
  pub Preserves-for_each :
      {E A : Type 0} (f : A → M S E (Unit {0})) (l : List A)
      → ((a : A) → Preserves P (f a))
      → Preserves P (for_each f l)
  unfolding for_each
  Preserves-for_each f [] h = Preserves-pure tt
  Preserves-for_each f (a ∷ l) h =
      Preserves->>= (f a) (λ _. for_each f l) (h a) (λ _. Preserves-for_each f l h)

pub ruleset preserves_rules = (
  Preserves-pure, Preserves-lift, Preserves-effect, Preserves-ask, Preserves-attempt,
  Preserves-call_or, Preserves-on_err, Preserves-if, Preserves->>=, Preserves-unless,
  Preserves-finally, Preserves-for_each,
)
