-- ===== src/Ldap/Delete/Subtree.antt =====
-- The entries of a directory before and after a cascading `DeleteEntry`.
use openldap_operator.Base.{
  subst, ℕ, zero, suc, ◌+◌, ◌≤◌, ◌<◌, String, ◌≡◌, refl, sym, ap, ◌∙◌, ◌⊎◌, inl, inr, Bool, true,
  false, none, some, List, [], ◌∷◌, arith, Bool-cases,
}
use openldap_operator.Go.{Fault, Error, ok, M, ◌>>=◌, ◌>>◌, for_each}
use openldap_operator.Go.Calls.{>>=-ok}
use openldap_operator.Ldap.Goldap.{Conn, SearchEntry, Goldap, no_such_object}
use openldap_operator.Ldap.Client.{Client, connect, with_connection_or, with_connection}
use openldap_operator.Ldap.Delete.{children_request, delete_one, delete_children, delete_entry}
use openldap_operator.Ldap.Delete.Tree.{
  Listed, IsTree, Under, self, below, Under-from_child, Under-cases, Removed, Removed-nothing,
  Removed-one, Removed-cast, Removed-trans, Removed-as, not_there,
}

module _ {S : Type 0} (g : Goldap S) (c : Client) (has : S → String → Bool)
    (is_child : String → String → Bool) (rank : String → ℕ)
    (tree : IsTree g c has is_child rank) where
  with_connection-opened :
      {A : Type 0} (body : Conn → M S Error A) (s : S)
      → (conn : Conn) × (t : S) × (has t ≡ has s)
        × (with_connection g c body s ≡ ((body conn t).0, g.close conn (body conn t).1))
  unfolding with_connection_or connect ◌>>=◌
  with_connection-opened body s =
      let (conn, t, e) = tree.dials s in
      let t1 = g.set_timeout conn 5 t in
      let t2 = (g.bind conn c.admin_username c.admin_password t1).1 in
      (
        conn,
        t2,
        tree.bind_same conn t1
            ∙ tree.set_timeout_same conn 5 t
            ∙ ap (λ x. has x.1) (sym e)
            ∙ tree.dial_same s,
        rw (e, with_connection_or, connect) (rw (tree.admits conn t1)),
      )

  abbrev AnyUnder : List SearchEntry → String → Type 0
  AnyUnder [] x = ⊥
  AnyUnder (e ∷ es) x = Under is_child e.dn x ⊎ AnyUnder es x

  AnyUnder-Listed :
      (es : List SearchEntry) {b x : String} → Listed b es → Under is_child b x → AnyUnder es x
  AnyUnder-Listed [] l u = elim l [ ]
  AnyUnder-Listed (e ∷ es) {b} {x} (inl h) u = inl (rw h u)
  AnyUnder-Listed (e ∷ es) (inr l) u = inr (AnyUnder-Listed es l u)

  Listed-AnyUnder :
      (es : List SearchEntry) (x : String)
      → AnyUnder es x
      → (b : String) × Listed b es × Under is_child b x
  Listed-AnyUnder [] x h = elim h [ ]
  Listed-AnyUnder (e ∷ es) x (inl u) = (e.dn, inl refl, u)
  Listed-AnyUnder (e ∷ es) x (inr h) = let (b, l, u) = Listed-AnyUnder es x h in (b, inr l, u)

  -- Below a missing entry there is nothing.
  Under-missing : (s : S) {b x : String} → Under is_child b x → has s b ≡ false → has s x ≡ false
  Under-missing s self h = h
  Under-missing s {x} (below {p} u k) h =
      not_there (has s p) (has s x) (λ e. tree.parent_there s x p e k) (Under-missing s u h)

  -- The entries of the directory lie no deeper than `deepest`.
  abbrev IsBounded : ℕ → (String → Bool) → Type 0
  IsBounded deepest there = (x : String) → there x ≡ true → rank x ≤ deepest

  -- What a call has to do for the child `x`.
  abbrev Deletes : ℕ → (String → M S Error (Unit {0})) → String → Type 0
  Deletes deepest rec x =
      (s : S)
      → IsBounded deepest (has s)
      → (t : S) × (rec x s ≡ (ok tt, t)) × Removed (has s) (has t) (Under is_child x)

  for_each-Deletes :
      (deepest : ℕ) (rec : String → M S Error (Unit {0})) (es : List SearchEntry)
      → ((b : String) → Listed b es → Deletes deepest rec b)
      → (s : S) → IsBounded deepest (has s)
      → (t : S) × (for_each (λ e. rec e.dn) es s ≡ (ok tt, t))
        × Removed (has s) (has t) (AnyUnder es)
  unfolding for_each ◌>>=◌
  for_each-Deletes deepest rec [] h s b = (s, refl, Removed-nothing (has s))
  for_each-Deletes deepest rec (e ∷ es) h s b =
      let (t, run, gone) = h e.dn (inl refl) s b in
      let (u, run', gone') =
        for_each-Deletes deepest rec es (λ y l. h y (inr l)) t (λ x k. b x (gone.no_new x k)) in
      (u, >>=-ok (rec e.dn) _ run ∙ run', Removed-trans gone gone')

  -- The search for the children, with its errors allowed for.
  children-there :
      (rec : String → M S Error (Unit {0})) (conn : Conn) (dn : String) (s : S)
      (es : List SearchEntry)
      → (g.search conn (children_request dn) s).0 ≡ record { entries = some es; error = none }
      → delete_children g rec conn dn s
        ≡ for_each (λ e. rec e.dn) es (g.search conn (children_request dn) s).1
  unfolding delete_children ◌>>=◌
  children-there rec conn dn s es e = rw e

  children-missing :
      (rec : String → M S Error (Unit {0})) (conn : Conn) (dn : String) (s : S) (f : Fault)
      → f.result_code ≡ some no_such_object
      → (g.search conn (children_request dn) s).0 ≡ record { entries = some []; error = some f }
      → delete_children g rec conn dn s ≡ (ok tt, (g.search conn (children_request dn) s).1)
  unfolding delete_children ◌>>=◌ for_each
  children-missing rec conn dn s f code e = rw (e, delete_children) (ground arith)

  abbrev UnderChild : String → String → Type 0
  UnderChild dn x = (b : String) × (is_child b dn ≡ true) × Under is_child b x

  delete_children-Deletes :
      (deepest : ℕ) (rec : String → M S Error (Unit {0})) (conn : Conn) (dn : String)
      → ((b : String) → is_child b dn ≡ true → rank b ≤ deepest → Deletes deepest rec b)
      → (s : S) → IsBounded deepest (has s)
      → (t : S) × (delete_children g rec conn dn s ≡ (ok tt, t))
        × Removed (has s) (has t) (UnderChild dn)
  delete_children-Deletes deepest rec conn dn h s b = elim (Bool-cases (has s dn)) [
    | inl there ↦
        let (es, reply, sound, complete) = tree.search_there conn dn s there in
        let s' = (g.search conn (children_request dn) s).1 in
        let same = tree.search_same conn dn s in
        let (t, run, gone) =
          for_each-Deletes deepest rec es (λ y l. h y (sound y l).1 (b y (sound y l).0)) s'
            (subst (IsBounded deepest) (sym same) b) in
        (
          t,
          children-there rec conn dn s es reply ∙ run,
          Removed-as (subst (λ w. Removed w (has t) (AnyUnder es)) same gone)
              (λ x a. let (y, l, u) = Listed-AnyUnder es x a in (y, (sound y l).1, u))
              (λ x (y, k, u). elim (Bool-cases (has s y)) [
                | inl e ↦ inl (AnyUnder-Listed es (complete y e k) u)
                | inr e ↦ inr (Under-missing s u e)
              ]),
        )
    | inr missing ↦
        let (f, code, reply) = tree.search_missing conn dn s missing in
        (
          (g.search conn (children_request dn) s).1,
          children-missing rec conn dn s f code reply,
          Removed-as
              (subst (λ w. Removed (has s) w (λ _. ⊥)) (sym (tree.search_same conn dn s))
                (Removed-nothing (has s)))
              (λ x a. absurd a)
              (λ x (y, k, u). inr (Under-missing s u (child_missing s y dn k missing))),
        )
  ]
    where
      child_missing :
          (s : S) (y p : String) → is_child y p ≡ true → has s p ≡ false → has s y ≡ false
      child_missing s y p k m = not_there (has s p) (has s y) (λ e. tree.parent_there s y p e k) m

  -- The deletion of the entry itself, once nothing is left below it.
  delete_one-Removed :
      (conn : Conn) (dn : String) (s : S)
      → ((x : String) → is_child x dn ≡ true → has s x ≡ false)
      → (delete_one g conn dn s ≡ (ok tt, (g.del conn dn s).1))
        × Removed (has s) (has (g.del conn dn s).1) (λ x. x ≡ dn)
  unfolding delete_one ◌>>=◌
  delete_one-Removed conn dn s leaf = elim (Bool-cases (has s dn)) [
    | inl there ↦ (
      rw (tree.del_leaf conn dn s there leaf),
      Removed-one (has s) _ dn (tree.del_leaf_has conn dn s there leaf),
    )
    | inr missing ↦
        let (f, code, e) = tree.del_missing conn dn s missing in
        (
          rw (e, delete_one) (ground arith),
          Removed-as
              (subst (λ w. Removed (has s) w (λ _. ⊥))
                (sym (tree.del_missing_same conn dn s missing)) (Removed-nothing (has s)))
              (λ x a. absurd a) (λ x e. inr (ap (has s) e ∙ missing)),
        )
  ]

  -- Every level of the tree takes one unit of fuel.
  delete_entry-Deletes :
      (deepest fuel : ℕ) (dn : String)
      → 0 < fuel
      → deepest < rank dn + fuel
      → Deletes deepest (λ x s. delete_entry g fuel c x true s) dn
  unfolding delete_entry
  delete_entry-Deletes deepest zero dn pos enough s b = absurd (omega arith)
  delete_entry-Deletes deepest (suc fuel) dn pos enough s b =
      let rec : String → M S Error (Unit {0}) = λ x w. delete_entry g fuel c x true w in
      let (conn, s1, same, run) =
        with_connection-opened (λ conn. delete_children g rec conn dn >> delete_one g conn dn) s in
      let (s2, children, gone) =
        delete_children-Deletes deepest rec conn dn
          (λ y k shallow.
            delete_entry-Deletes deepest fuel y (omega (arith, tree.child_rank y dn k))
              (omega (arith, tree.child_rank y dn k)))
          s1 (subst (IsBounded deepest) (sym same) b) in
      let (alone, one) = delete_one-Removed conn dn s2 (λ x k. gone.gone x (x, k, self)) in
      let both = >>=-ok (delete_children g rec conn dn) _ children ∙ alone in
      (
        g.close conn (g.del conn dn s2).1,
        run ∙ ap (λ r. (r.0, g.close conn r.1)) both,
        Removed-as (Removed-cast same (sym (tree.close_same conn _)) (Removed-trans gone one))
            (λ x. elim [ inl (y, k, u) ↦ Under-from_child k u | inr e ↦ rw e self ])
            (λ x u. elim (Under-cases u) [ inl e ↦ inl (inr e) | inr v ↦ inl (inl v) ]),
      )

  -- In a directory that lets the client in, where an entry is no deeper than `deepest` levels and
  -- the model's fuel reaches as deep, a cascading `DeleteEntry` ends without an error, and then the
  -- entry and all that was below it are gone, while every other entry is there as before.
  pub delete_entry-Removed :
      (deepest fuel : ℕ) (dn : String) (s : S)
      → ((x : String) → has s x ≡ true → rank x ≤ deepest)
      → 0 < fuel
      → deepest < rank dn + fuel
      → (t : S) × (delete_entry g fuel c dn true s ≡ (ok tt, t))
        × Removed (has s) (has t) (Under is_child dn)
  delete_entry-Removed deepest fuel dn s b pos enough =
      delete_entry-Deletes deepest fuel dn pos enough s b
