-- ===== src/Ldap/Delete/Tree.antt =====
-- A directory server as a tree of names: what `DeleteEntry` relies on, and sets of names that were
-- removed from it.
use openldap_operator.Base.{
  ℕ, ◌+◌, String, ◌==◌, ◌≡◌, refl, ◌∙◌, ◌⊎◌, inl, inr, Bool, true, false, none, some, List, [], ◌∷◌,
  arith, if◌then◌else◌, eq_iff, subst,
}
use openldap_operator.Go.{Fault, ok, err}
use openldap_operator.Ldap.Goldap.{Conn, SearchEntry, Goldap, no_such_object}
use openldap_operator.Ldap.Client.{Client}
use openldap_operator.Ldap.Delete.{children_request}

-- A name is that of one of the entries.
abbrev pub Listed : String → List SearchEntry → Type 0
Listed x [] = ⊥
Listed x (e ∷ es) = (e.dn ≡ x) ⊎ Listed x es

-- The names in a directory, by what the server answers to a client that it lets in: `has s x` says
-- that the entry `x` is there, `is_child x p` that `x` lies directly below `p`.
pub record IsTree {S : Type 0} (g : Goldap S) (c : Client) (has : S → String → Bool)
    (is_child : String → String → Bool) (rank : String → ℕ) : Type 0 where
  pub child_rank : (x p : String) → is_child x p ≡ true → rank x ≡ rank p + 1
  pub parent_there : (s : S) (x p : String) → has s x ≡ true → is_child x p ≡ true → has s p ≡ true
  pub dials :
      (s : S)
      → (conn : Conn) × (t : S) × (g.dial_url c.directory_address c.ca_bundle s ≡ (ok conn, t))
  pub dial_same : (s : S) → has (g.dial_url c.directory_address c.ca_bundle s).1 ≡ has s
  pub set_timeout_same : (conn : Conn) (n : ℕ) (s : S) → has (g.set_timeout conn n s) ≡ has s
  pub admits : (conn : Conn) (s : S) → (g.bind conn c.admin_username c.admin_password s).0 ≡ ok tt
  pub bind_same :
      (conn : Conn) (s : S) → has (g.bind conn c.admin_username c.admin_password s).1 ≡ has s
  pub close_same : (conn : Conn) (s : S) → has (g.close conn s) ≡ has s
  pub search_same :
      (conn : Conn) (dn : String) (s : S) → has (g.search conn (children_request dn) s).1 ≡ has s
  -- A search below an entry finds its children.
  pub search_there :
      (conn : Conn) (dn : String) (s : S)
      → has s dn ≡ true
      → (es : List SearchEntry) × ((g.search conn (children_request dn) s).0
          ≡ record { entries = some es; error = none })
        × ((x : String) → Listed x es → (has s x ≡ true) × (is_child x dn ≡ true))
        × ((x : String) → has s x ≡ true → is_child x dn ≡ true → Listed x es)
  -- A search below a missing entry says so, and has a result without entries.
  pub search_missing :
      (conn : Conn) (dn : String) (s : S)
      → has s dn ≡ false
      → (f : Fault) × (f.result_code ≡ some no_such_object)
        × ((g.search conn (children_request dn) s).0 ≡ record { entries = some []; error = some f })
  -- An entry without children can be deleted.
  pub del_leaf :
      (conn : Conn) (dn : String) (s : S)
      → has s dn ≡ true
      → ((x : String) → is_child x dn ≡ true → has s x ≡ false)
      → (g.del conn dn s).0 ≡ ok tt
  pub del_leaf_has :
      (conn : Conn) (dn : String) (s : S)
      → has s dn ≡ true
      → ((x : String) → is_child x dn ≡ true → has s x ≡ false)
      → (x : String) → has (g.del conn dn s).1 x ≡ (if x == dn then false else has s x)
  pub del_missing :
      (conn : Conn) (dn : String) (s : S)
      → has s dn ≡ false
      → (f : Fault) × (f.result_code ≡ some no_such_object) × ((g.del conn dn s).0 ≡ err f)
  pub del_missing_same :
      (conn : Conn) (dn : String) (s : S) → has s dn ≡ false → has (g.del conn dn s).1 ≡ has s

-- An entry and all that lies below it.
pub data Under (is_child : String → String → Bool) (a : String) : String → Type 0 where
  self : Under is_child a a
  below : {x p : String} → Under is_child a p → is_child x p ≡ true → Under is_child a x

module _ {is_child : String → String → Bool} where
  -- From below: through a child of the top.
  pub Under-from_child :
      {a b x : String} → is_child b a ≡ true → Under is_child b x → Under is_child a x
  Under-from_child h self = below self h
  Under-from_child h (below u k) = below (Under-from_child h u) k

  -- The child of the top on the way to an entry.
  pub Under-cases :
      {a x : String}
      → Under is_child a x
      → (x ≡ a) ⊎ ((b : String) × (is_child b a ≡ true) × Under is_child b x)
  Under-cases self = inl refl
  Under-cases {a} {x} (below {p} u k) = elim (Under-cases u) [
    | inl e ↦ inr (x, subst-child e k, self)
    | inr (b, h, v) ↦ inr (b, h, below v k)
  ]
    where
      subst-child : {y q r : String} → q ≡ r → is_child y q ≡ true → is_child y r ≡ true
      subst-child e k = rw (← e) k

-- From `s` to `t`, the names of `P` went, and no others came or went.
pub record Removed (s t : String → Bool) (P : String → Type 0) : Type 0 where
  pub no_new : (x : String) → t x ≡ true → s x ≡ true
  pub gone : (x : String) → P x → t x ≡ false
  pub kept : (x : String) → ¬ P x → t x ≡ s x

pub Removed-nothing : (s : String → Bool) → Removed s s (λ _. ⊥)
Removed-nothing s = record { no_new = λ x h. h; gone = λ x p. absurd p; kept = λ x p. refl }

pub not_there : (a b : Bool) → (b ≡ true → a ≡ true) → a ≡ false → b ≡ false
not_there a true h e = ground (arith, h refl)
not_there a false h e = refl

pub Removed-trans :
    {s t u : String → Bool} {P Q : String → Type 0}
    → Removed s t P
    → Removed t u Q
    → Removed s u (λ x. P x ⊎ Q x)
Removed-trans {s} {t} {u} {P} {Q} a b = record {
  no_new = λ x h. a.no_new x (b.no_new x h);
  gone = λ x p. go x p;
  kept = λ x n. b.kept x (λ q. n (inr q)) ∙ a.kept x (λ p. n (inl p));
}
  where
    go : (x : String) → P x ⊎ Q x → u x ≡ false
    go x (inl p) = not_there (t x) (u x) (b.no_new x) (a.gone x p)
    go x (inr q) = b.gone x q

-- A smaller description of the same removal, where what it leaves out was not there.
pub Removed-as :
    {s t : String → Bool} {P Q : String → Type 0}
    → Removed s t P
    → ((x : String) → P x → Q x)
    → ((x : String) → Q x → P x ⊎ (s x ≡ false))
    → Removed s t Q
Removed-as {s} {t} {P} {Q} a h k = record {
  no_new = a.no_new;
  gone = λ x q. go x (k x q);
  kept = λ x n. a.kept x (λ p. n (h x p));
}
  where
    go : (x : String) → P x ⊎ (s x ≡ false) → t x ≡ false
    go x (inl p) = a.gone x p
    go x (inr e) = not_there (s x) (t x) (a.no_new x) e

-- One name taken out.
pub Removed-one :
    (s t : String → Bool) (dn : String)
    → ((x : String) → t x ≡ (if x == dn then false else s x))
    → Removed s t (λ x. x ≡ dn)
Removed-one s t dn h = record {
  no_new = λ x k. ground (arith, h x);
  gone = λ x e. ground (arith, h x, eq_iff x dn);
  kept = λ x n. ground (arith, h x, eq_iff x dn, n);
}

pub Removed-cast :
    {s s' t t' : String → Bool} {P : String → Type 0}
    → s ≡ s'
    → t ≡ t'
    → Removed s t P
    → Removed s' t' P
Removed-cast {s} {s'} {t} {t'} {P} p q a =
    subst (λ w. Removed s' w P) q (subst (λ w. Removed w t P) p a)
