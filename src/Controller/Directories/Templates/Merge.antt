-- ===== src/Controller/Directories/Templates/Merge.antt =====
-- The loops of `statefulSetTemplate` (internal/controller/ldapdirectory_controller.go) that put the
-- elements of a specification over the defaults, by the names that they leave.
use openldap_operator.Base.{
  String, ◌==◌, eq_iff, ◌≡◌, refl, sym, ◌∙◌, subst, Bool, true, false, Option, none, some, inl, inr,
  List, [], ◌∷◌, Bool-cases, arith, if◌then◌else◌,
}
use openldap_operator.Controller.Directories.Templates.{put, merge}

abbrev pub or_else {ℓ} : {A : Type ℓ} → Option A → Option A → Option A
or_else none o = o
or_else (some a) o = some a

module _ {A : Type 0} (name_of : A → String) where
  -- The first element of a name.
  abbrev pub first_named : String → List A → Option A
  first_named n [] = none
  first_named n (x ∷ l) = if name_of x == n then some x else first_named n l

  -- The last element of a name.
  abbrev pub last_named : String → List A → Option A
  last_named n [] = none
  last_named n (x ∷ l) = or_else (last_named n l) (if name_of x == n then some x else none)

  -- No two elements have the same name.
  abbrev pub Distinct : List A → Type 0
  Distinct [] = Unit
  Distinct (x ∷ l) = (first_named (name_of x) l ≡ none) × Distinct l

  pub first_named-put :
      (n : String) (x : A) (l : List A)
      → first_named n (put name_of x l) ≡ (if name_of x == n then some x else first_named n l)
  unfolding put
  first_named-put n x [] = refl
  first_named-put n x (y ∷ l) =
      let rest = first_named-put n x l in
      ground (arith, eq_iff (name_of y) (name_of x), eq_iff (name_of y) n, eq_iff (name_of x) n)

  put-Distinct : (x : A) (l : List A) → Distinct l → Distinct (put name_of x l)
  unfolding put
  put-Distinct x [] h = (refl, tt)
  put-Distinct x (y ∷ l) h = elim (Bool-cases (name_of y == name_of x)) [
    | inl e ↦ rw e (
        let same : name_of y ≡ name_of x = (eq_iff (name_of y) (name_of x)).0 e in
        (subst (λ n. first_named n l ≡ none) same h.0, h.1))
    | inr e ↦ rw e (
      first_named-put (name_of y) x l
          ∙ ground (arith, eq_iff (name_of y) (name_of x), eq_iff (name_of x) (name_of y), h.0),
      put-Distinct x l h.1,
    )
  ]

  or_else_assoc :
      (o : Option A) (b : Bool) (x : A) (p : Option A)
      → or_else o (if b then some x else p) ≡ or_else (or_else o (if b then some x else none)) p
  or_else_assoc none true x p = refl
  or_else_assoc none false x p = refl
  or_else_assoc (some y) b x p = refl

  pub first_named-merge :
      (n : String) (l xs : List A)
      → first_named n (merge name_of l xs) ≡ or_else (last_named n xs) (first_named n l)
  unfolding merge
  first_named-merge n l [] = refl
  first_named-merge n l (x ∷ xs) =
      rw (first_named-merge n (put name_of x l) xs, first_named-put n x l)
        (or_else_assoc (last_named n xs) (name_of x == n) x (first_named n l))

  pub merge-Distinct : (l xs : List A) → Distinct l → Distinct (merge name_of l xs)
  unfolding merge
  merge-Distinct l [] h = h
  merge-Distinct l (x ∷ xs) h = merge-Distinct (put name_of x l) xs (put-Distinct x l h)

  or_else-none : (o : Option A) (p : Option A) → or_else o p ≡ none → p ≡ none
  or_else-none none p e = e
  or_else-none (some x) p e = absurd (cc e)

  -- A name of the elements that were there stays a name of theirs.
  pub merge-none :
      (n : String) (l xs : List A)
      → first_named n (merge name_of l xs) ≡ none
      → first_named n l ≡ none
  merge-none n l xs e = or_else-none (last_named n xs) _ (sym (first_named-merge n l xs) ∙ e)
