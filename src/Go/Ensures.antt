-- ===== src/Go/Ensures.antt =====
-- What holds of the value that a call returns and of the world after it: a rule for each way to
-- build a call. Nothing is said of a call that ends in another way.
use openldap_operator.Base.{◌≡◌, refl, subst, Bool, true, false, Option, none, some, if◌then◌else◌}
use openldap_operator.Go.{
  Fault, Error, Result, panic, unfinished, on_result, unless, ok, err, M, pure, lift, ◌>>=◌,
}
use openldap_operator.Go.Calls.{>>=-eq-ok}

pub record Ensures {S E A : Type 0} (Q : A → S → Type 0) (m : M S E A) : Type 0 where
  pub after : (s t : S) (a : A) → m s ≡ (ok a, t) → Q a t

module _ {S A : Type 0} {Q : A → S → Type 0} where
  pub Ensures-pure : {E : Type 0} (a : A) → ((s : S) → Q a s) → Ensures Q (pure {S = S} {E = E} a)
  unfolding pure
  Ensures-pure a h = record { after = λ s t b e. let p : a ≡ b = cc in subst (λ x. Q x t) p (h t) }

  pub Ensures-err : {E : Type 0} (e : E) → Ensures Q (lift {S = S} {A = A} (err e))
  unfolding lift
  Ensures-err e = record { after = λ s t b h. absurd (cc h) }

  pub Ensures->>= :
      {E B : Type 0} (m : M S E B) (f : B → M S E A)
      → ((b : B) → Ensures Q (f b))
      → Ensures Q (m >>= f)
  Ensures->>= m f h = record {
    after = λ s t a e. let (b, u, k, e') = >>=-eq-ok m f e in (h b).after u t a e';
  }

  -- The rest may use how the first call ended.
  pub Ensures->>=_value :
      {E B : Type 0} (m : M S E B) (f : B → M S E A)
      → ((s u t : S) (b : B) (a : A) → m s ≡ (ok b, u) → f b u ≡ (ok a, t) → Q a t)
      → Ensures Q (m >>= f)
  Ensures->>=_value m f h = record {
    after = λ s t a e. let (b, u, k, e') = >>=-eq-ok m f e in h s u t b a k e';
  }

  pub Ensures-if :
      {E : Type 0} (b : Bool) (m n : M S E A)
      → Ensures Q m
      → Ensures Q n
      → Ensures Q (if b then m else n)
  Ensures-if true m n h k = h
  Ensures-if false m n h k = k

  pub Ensures-on_result :
      {B : Type 0} (m : M S Error B) (handle : Error → M S Error A) (next : B → M S Error A)
      → ((e : Error) → Ensures Q (handle e))
      → ((b : B) → Ensures Q (next b))
      → Ensures Q (on_result m handle next)
  unfolding on_result
  Ensures-on_result {B} m handle next h j = record { after = λ s t r e. go (m s).0 (m s).1 t r e }
    where
      go :
          (x : Result Error B) (u t : S) (r : A)
          → on_result (λ s. (x, u)) handle next u ≡ (ok r, t)
          → Q r t
      go (ok a) u t r e = (j a).after u t r e
      go (err x) u t r e = (h x).after u t r e
      go (panic p) u t r e = absurd (cc e)
      go unfinished u t r e = absurd (cc e)

  -- The branches may use what the test says.
  pub Ensures-if_value :
      {E : Type 0} (b : Bool) (m n : M S E A)
      → (b ≡ true → Ensures Q m)
      → (b ≡ false → Ensures Q n)
      → Ensures Q (if b then m else n)
  Ensures-if_value true m n h k = h refl
  Ensures-if_value false m n h k = k refl

  -- What follows a success may use how the call ended.
  pub Ensures-on_result_value :
      {B : Type 0} (m : M S Error B) (handle : Error → M S Error A) (next : B → M S Error A)
      → ((e : Error) → Ensures Q (handle e))
      → ((s u t : S) (b : B) (a : A) → m s ≡ (ok b, u) → next b u ≡ (ok a, t) → Q a t)
      → Ensures Q (on_result m handle next)
  unfolding on_result
  Ensures-on_result_value {B} m handle next h j = record {
    after = λ s t a e. go s (m s) t a refl e;
  }
    where
      go :
          (s : S) (x : Result Error B × S) (t : S) (r : A)
          → m s ≡ x
          → on_result (λ _. x) handle next s ≡ (ok r, t)
          → Q r t
      go s (ok b, u) t r i e = j s u t b r i e
      go s (err x, u) t r i e = (h x).after u t r e
      go s (panic p, u) t r i e = absurd (cc e)
      go s (unfinished, u) t r i e = absurd (cc e)

  pub Ensures-unless :
      (e : Option Fault) (handle : Fault → M S Error A) (rest : M S Error A)
      → ((f : Fault) → Ensures Q (handle f))
      → Ensures Q rest
      → Ensures Q (unless e handle rest)
  unfolding unless
  Ensures-unless none handle rest h j = j
  Ensures-unless (some f) handle rest h j = h f

pub ruleset ensures_rules =
    (Ensures-pure, Ensures-err, Ensures->>=, Ensures-if, Ensures-on_result, Ensures-unless)
