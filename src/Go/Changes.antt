-- ===== src/Go/Changes.antt =====
-- How a call that succeeds changes a view of the world.
use openldap_operator.Base.{◌≡◌, ◌∙◌, sym, ap}
use openldap_operator.Go.{ok, M, ◌>>=◌}
use openldap_operator.Go.Calls.{Keeps, >>=-eq-ok}

-- The view after a success is `f` of the view before.
pub record Changes {S E A V : Type 0} (v : S → V) (f : V → V) (m : M S E A) : Type 0 where
  pub changed : (s t : S) (a : A) → m s ≡ (ok a, t) → v t ≡ f (v s)

module _ {S V : Type 0} {v : S → V} where
  pub Changes-of_Keeps : {E A : Type 0} {m : M S E A} → Keeps v m → Changes v (λ x. x) m
  Changes-of_Keeps k = record { changed = λ s t a e. ap (λ r. v r.1) (sym e) ∙ k.same s }

  pub Changes->>= :
      {E A B : Type 0} {f g : V → V} (m : M S E A) (k : A → M S E B)
      → Changes v f m
      → ((a : A) → Changes v g (k a))
      → Changes v (λ x. g (f x)) (m >>= k)
  Changes->>= {g = g} m k h j = record {
    changed = λ s t b e.
        let (a, u, first, rest) = >>=-eq-ok m k e in
        (j a).changed u t b rest ∙ ap g (h.changed s u a first);
  }
