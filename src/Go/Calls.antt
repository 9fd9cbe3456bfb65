-- ===== src/Go/Calls.antt =====
-- Laws of calls in sequence.
use openldap_operator.Base.{
  String, ◌≡◌, refl, ◌∙◌, sym, ap, ◌⊎◌, inl, inr, Bool, true, false, List, [], ◌∷◌, arith,
  if◌then◌else◌,
}
use openldap_operator.Go.{
  Fault, Error, Result, ok, err, panic, unfinished, M, pure, lift, call_or, on_err, effect, ask,
  on_result, continue, ◌>>=◌, for_each, map_ok, map_err,
}

module _ {S E A B : Type 0} (m : M S E A) (f : A → M S E B) where
  -- A call that succeeds hands its value and its world on.
  pub >>=-ok : {a : A} {s t : S} → m s ≡ (ok a, t) → (m >>= f) s ≡ f a t
  unfolding ◌>>=◌
  >>=-ok e = rw e

  pub >>=-err : {e : E} {s t : S} → m s ≡ (err e, t) → (m >>= f) s ≡ (err e, t)
  unfolding ◌>>=◌
  >>=-err e = rw e

  pub >>=-unfinished : {s t : S} → m s ≡ (unfinished, t) → (m >>= f) s ≡ (unfinished, t)
  unfolding ◌>>=◌
  >>=-unfinished e = rw e

  -- Inversion of a successful sequence.
  pub >>=-eq-ok :
      {b : B} {s u : S}
      → (m >>= f) s ≡ (ok b, u)
      → (a : A) × (t : S) × (m s ≡ (ok a, t)) × (f a t ≡ (ok b, u))
  unfolding ◌>>=◌
  >>=-eq-ok {b} {s} {u} h = go (m s) refl
    where
      go :
          (r : Result E A × S)
          → m s ≡ r
          → (a : A) × (t : S) × (m s ≡ (ok a, t)) × (f a t ≡ (ok b, u))
      go (ok a, t) e = (a, t, e, sym (>>=-ok e) ∙ h)
      go (err x, t) e = ground arith
      go (panic p, t) e = ground arith
      go (unfinished, t) e = ground arith

-- A call that does not return a value.
abbrev pub IsUnanswered : {E A : Type 0} → Result E A → Type 0
IsUnanswered (ok a) = ⊥
IsUnanswered _ = Unit

module _ {S E A B : Type 0} (m : M S E A) (f : A → M S E B) (s : S) where
  -- A sequence goes on after its first call, or ends with it.
  pub >>=-cases :
      ((a : A) × (t : S) × (m s ≡ (ok a, t)) × ((m >>= f) s ≡ f a t))
      ⊎ (IsUnanswered (m s).0 × IsUnanswered ((m >>= f) s).0 × (((m >>= f) s).1 ≡ (m s).1))
  unfolding ◌>>=◌
  >>=-cases = go (m s)
    where
      go :
          (r : Result E A × S)
          → ((a : A) × (t : S) × (r ≡ (ok a, t)) × (continue f r.0 r.1 ≡ f a t))
            ⊎ (IsUnanswered r.0
                × IsUnanswered (continue f r.0 r.1).0
                × ((continue f r.0 r.1).1 ≡ r.1))
      go (ok a, t) = inl (a, t, refl, refl)
      go (err e, t) = inr (tt, tt, refl)
      go (panic p, t) = inr (tt, tt, refl)
      go (unfinished, t) = inr (tt, tt, refl)

pub on_err-ok :
    {S A : Type 0} (f : Error → Error) (m : M S Error A) {s t : S} {a : A}
    → m s ≡ (ok a, t)
    → on_err f m s ≡ (ok a, t)
unfolding on_err
on_err-ok f m e = rw e

pub on_err-eq-ok :
    {S A : Type 0} (f : Error → Error) (m : M S Error A) {s t : S} {a : A}
    → on_err f m s ≡ (ok a, t)
    → m s ≡ (ok a, t)
unfolding on_err
on_err-eq-ok {S} {A} f m {s} {t} {a} h = go (m s) refl
  where
    go : (r : Result Error A × S) → m s ≡ r → m s ≡ (ok a, t)
    go (ok b, u) e = ground arith
    go (err x, u) e = ground arith
    go (panic p, u) e = ground arith
    go (unfinished, u) e = ground arith

pub on_err-value :
    {S A : Type 0} (f : Error → Error) (m : M S Error A) {s : S} {a : A}
    → (on_err f m s).0 ≡ ok a
    → (m s).0 ≡ ok a
on_err-value f m {s} e = ap (λ r. r.0) (on_err-eq-ok f m (ap (λ r. (r, (on_err f m s).1)) e))

pub call_or-ok :
    {S A : Type 0} (text : String) (m : M S Fault A) {s t : S} {a : A}
    → m s ≡ (ok a, t)
    → call_or text m s ≡ (ok a, t)
unfolding call_or
call_or-ok text m e = rw e

pub call_or-eq-ok :
    {S A : Type 0} (text : String) (m : M S Fault A) {s t : S} {a : A}
    → call_or text m s ≡ (ok a, t)
    → m s ≡ (ok a, t)
unfolding call_or
call_or-eq-ok {S} {A} text m {s} {t} {a} h = go (m s) refl
  where
    go : (r : Result Fault A × S) → m s ≡ r → m s ≡ (ok a, t)
    go (ok b, u) e = ground arith
    go (err x, u) e = ground arith
    go (panic p, u) e = ground arith
    go (unfinished, u) e = ground arith

module _ {S A B : Type 0} (m : M S Error A) (handle : Error → M S Error B)
    (next : A → M S Error B) where
  pub on_result-ok : {a : A} {s t : S} → m s ≡ (ok a, t) → on_result m handle next s ≡ next a t
  unfolding on_result
  on_result-ok {s = s} e = ap (λ r. on_result (λ _. r) handle next s) e

  pub on_result-err :
      {x : Error} {s t : S} → m s ≡ (err x, t) → on_result m handle next s ≡ handle x t
  unfolding on_result
  on_result-err {s = s} e = ap (λ r. on_result (λ _. r) handle next s) e

  pub on_result-panic :
      {p : String} {s t : S} → m s ≡ (panic p, t) → on_result m handle next s ≡ (panic p, t)
  unfolding on_result
  on_result-panic {s = s} e = ap (λ r. on_result (λ _. r) handle next s) e

  pub on_result-unfinished :
      {s t : S} → m s ≡ (unfinished, t) → on_result m handle next s ≡ (unfinished, t)
  unfolding on_result
  on_result-unfinished {s = s} e = ap (λ r. on_result (λ _. r) handle next s) e

-- Inversion of a library's result that a template changes where it is one.
pub map_ok-eq-ok :
    {A B : Type 0} (g : A → B) (f : Fault → Error) (r : Result Fault A) {b : B}
    → map_ok g (map_err f r) ≡ ok b
    → (a : A) × (r ≡ ok a) × (b ≡ g a)
map_ok-eq-ok g f (ok a) e = (a, refl, cc)
map_ok-eq-ok g f (err x) e = absurd (cc e)
map_ok-eq-ok g f (panic p) e = absurd (cc e)
map_ok-eq-ok g f unfinished e = absurd (cc e)

-- What `v` sees of the world is after the call as it was before, however the call ends.
pub record Keeps {ℓ} {S E A : Type 0} {V : Type ℓ} (v : S → V) (m : M S E A) : Type ℓ where
  pub same : (s : S) → v (m s).1 ≡ v s

module _ {ℓ} {S : Type 0} {V : Type ℓ} {v : S → V} where
  pub Keeps-pure : {E A : Type 0} (a : A) → Keeps v (pure {S = S} {A = A} {E = E} a)
  unfolding pure
  Keeps-pure a = record { same = λ s. refl }

  pub Keeps-lift : {E A : Type 0} (r : Result E A) → Keeps v (lift {S = S} r)
  unfolding lift
  Keeps-lift r = record { same = λ s. refl }

  pub Keeps-effect :
      {E : Type 0} (f : S → S) → ((s : S) → v (f s) ≡ v s) → Keeps v (effect {E = E} f)
  unfolding effect
  Keeps-effect f h = record { same = h }

  pub Keeps-ask :
      {E A : Type 0} (m : S → A × S) → ((s : S) → v (m s).1 ≡ v s) → Keeps v (ask {E = E} m)
  unfolding ask
  Keeps-ask m h = record { same = h }

  pub Keeps-call_or :
      {A : Type 0} (text : String) (m : M S Fault A) → Keeps v m → Keeps v (call_or text m)
  unfolding call_or
  Keeps-call_or text m h = record { same = h.same }

  pub Keeps-on_err :
      {A : Type 0} (f : Error → Error) (m : M S Error A) → Keeps v m → Keeps v (on_err f m)
  unfolding on_err
  Keeps-on_err f m h = record { same = h.same }

  pub Keeps-if :
      {E A : Type 0} (b : Bool) (m n : M S E A)
      → Keeps v m
      → Keeps v n
      → Keeps v (if b then m else n)
  Keeps-if true m n h k = h
  Keeps-if false m n h k = k

  continue-same :
      {E A B : Type 0} (f : A → M S E B)
      → ((a : A) → Keeps v (f a))
      → (r : Result E A) (s : S) → v (continue f r s).1 ≡ v s
  continue-same f h (ok a) s = (h a).same s
  continue-same f h (err e) s = refl
  continue-same f h (panic p) s = refl
  continue-same f h unfinished s = refl

  -- What follows the first call may keep the view where that call does not.
  pub >>=-same :
      {E A B : Type 0} (m : M S E A) (f : A → M S E B)
      → ((a : A) → Keeps v (f a))
      → (s : S) → v ((m >>= f) s).1 ≡ v (m s).1
  unfolding ◌>>=◌
  >>=-same m f h s = continue-same f h (m s).0 (m s).1

  pub Keeps->>= :
      {E A B : Type 0} (m : M S E A) (f : A → M S E B)
      → Keeps v m
      → ((a : A) → Keeps v (f a))
      → Keeps v (m >>= f)
  unfolding ◌>>=◌
  Keeps->>= m f h k = record { same = λ s. >>=-same m f k s ∙ h.same s }

  pub Keeps-for_each :
      {E A : Type 0} (f : A → M S E (Unit {0})) (l : List A)
      → ((a : A) → Keeps v (f a))
      → Keeps v (for_each f l)
  unfolding for_each
  Keeps-for_each f [] h = Keeps-pure tt
  Keeps-for_each f (a ∷ l) h = Keeps->>= (f a) (λ _. for_each f l) (h a) (λ _. Keeps-for_each f l h)

pub ruleset keeps_rules = (
  Keeps-pure, Keeps-lift, Keeps-effect, Keeps-ask, Keeps-call_or, Keeps-on_err, Keeps-if, Keeps->>=,
  Keeps-for_each,
)
