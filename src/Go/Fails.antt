-- ===== src/Go/Fails.antt =====
-- What holds of the error that a call returns and of the world after it: a rule for each way to
-- build a call. Nothing is said of a call that ends in another way.
use openldap_operator.Base.{
  String, ◌≡◌, refl, ap, subst, ◌⊎◌, inl, inr, Bool, true, false, Option, none, some, if◌then◌else◌,
}
use openldap_operator.Go.{
  Fault, Error, fault, wrapf, Result, ok, err, panic, unfinished, M, pure, lift, call_or, effect,
  ask, attempt, on_result, unless, continue, ◌>>=◌,
}

pub record Fails {S A : Type 0} (Q : Error → S → Type 0) (m : M S Error A) : Type 0 where
  pub after : (s t : S) (e : Error) → m s ≡ (err e, t) → Q e t

module _ {S A B : Type 0} (m : M S Error B) (f : B → M S Error A) where
  -- Inversion of a sequence that fails: at its first call, or later.
  pub >>=-eq-err :
      {e : Error} {s t : S}
      → (m >>= f) s ≡ (err e, t)
      → (m s ≡ (err e, t)) ⊎ ((b : B) × (u : S) × (m s ≡ (ok b, u)) × (f b u ≡ (err e, t)))
  unfolding ◌>>=◌
  >>=-eq-err {e} {s} {t} h = go (m s) h
    where
      go :
          (r : Result Error B × S)
          → continue f r.0 r.1 ≡ (err e, t)
          → (r ≡ (err e, t)) ⊎ ((b : B) × (u : S) × (r ≡ (ok b, u)) × (f b u ≡ (err e, t)))
      go (ok b, u) h = inr (b, u, refl, h)
      go (err x, u) h = inl (ap errs h)
        where
          errs : Result Error A × S → Result Error B × S
          errs (err y, w) = (err y, w)
          errs (_, w) = (err x, w)
      go (panic p, u) h = absurd (cc h)
      go (unfinished, u) h = absurd (cc h)

-- What is to hold, of a result that is an error.
abbrev pub AtError : {S A : Type 0} → (Error → S → Type 0) → Result Error A × S → Type 0
AtError Q (err e, t) = Q e t
AtError Q _ = Unit

module _ {S A : Type 0} {Q : Error → S → Type 0} where
  pub Fails-pure : (a : A) → Fails Q (pure {S = S} {E = Error} a)
  unfolding pure
  Fails-pure a = record { after = λ s t e h. absurd (cc h) }

  pub Fails-lift :
      (r : Result Error A) → ((e : Error) (s : S) → r ≡ err e → Q e s) → Fails Q (lift r)
  unfolding lift
  Fails-lift r h = record { after = λ s t e k. h e t (ap (λ p. p.0) k) }

  pub Fails-ask : (m : S → A × S) → Fails Q (ask m)
  unfolding ask
  Fails-ask m = record { after = λ s t e h. absurd (cc h) }

  pub Fails-call_or :
      (text : String) (m : M S Fault A)
      → ((f : Fault) (t : S) → Q (wrapf text (fault f)) t)
      → Fails Q (call_or text m)
  unfolding call_or
  Fails-call_or text m h = record { after = λ s t e k. go (m s) t e k }
    where
      go :
          (r : Result Fault A × S) (t : S) (e : Error)
          → call_or text (λ _. r) r.1 ≡ (err e, t)
          → Q e t
      go (ok a, u) t e k = absurd (cc k)
      go (err f, u) t e k = subst (AtError Q) k (h f u)
      go (panic p, u) t e k = absurd (cc k)
      go (unfinished, u) t e k = absurd (cc k)

  pub Fails->>= :
      {B : Type 0} (m : M S Error B) (f : B → M S Error A)
      → Fails Q m
      → ((b : B) → Fails Q (f b))
      → Fails Q (m >>= f)
  Fails->>= m f h k = record {
    after = λ s t e x. elim (>>=-eq-err m f x) [
      | inl here ↦ h.after s t e here
      | inr (b, u, _, later) ↦ (k b).after u t e later
    ];
  }

  pub Fails-if :
      (b : Bool) (m n : M S Error A) → Fails Q m → Fails Q n → Fails Q (if b then m else n)
  Fails-if true m n h k = h
  Fails-if false m n h k = k

  pub Fails-unless :
      (o : Option Fault) (handle : Fault → M S Error A) (rest : M S Error A)
      → ((f : Fault) → Fails Q (handle f))
      → Fails Q rest
      → Fails Q (unless o handle rest)
  unfolding unless
  Fails-unless none handle rest h k = k
  Fails-unless (some f) handle rest h k = h f

  pub Fails-on_result :
      {B : Type 0} (m : M S Error B) (handle : Error → M S Error A) (next : B → M S Error A)
      → ((e : Error) → Fails Q (handle e))
      → ((b : B) → Fails Q (next b))
      → Fails Q (on_result m handle next)
  unfolding on_result
  Fails-on_result {B} m handle next h k = record { after = λ s t e x. go (m s).0 (m s).1 t e x }
    where
      go :
          (r : Result Error B) (u t : S) (e : Error)
          → on_result (λ s. (r, u)) handle next u ≡ (err e, t)
          → Q e t
      go (ok b) u t e x = (k b).after u t e x
      go (err y) u t e x = (h y).after u t e x
      go (panic p) u t e x = absurd (cc x)
      go unfinished u t e x = absurd (cc x)

module _ {S : Type 0} {Q : Error → S → Type 0} where
  pub Fails-effect : (f : S → S) → Fails Q (effect f)
  unfolding effect
  Fails-effect f = record { after = λ s t e h. absurd (cc h) }

  pub Fails-attempt : {F A : Type 0} (m : M S F A) → Fails Q (attempt m)
  unfolding attempt
  Fails-attempt m = record { after = λ s t e h. absurd (cc h) }

pub ruleset fails_rules = (
  Fails-pure, Fails-ask, Fails->>=, Fails-if, Fails-unless, Fails-on_result, Fails-effect,
  Fails-attempt,
)
