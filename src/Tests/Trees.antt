-- ===== src/Tests/Trees.antt =====
-- A server with an entry and one below it, and a cascading deletion.
use openldap_operator.Base.{
  ℕ, ◌≤◌, String, ◌==◌, ◌≡◌, refl, Bool, true, false, none, some, List, [], ◌∷◌, arith,
  if◌then◌else◌, eq_iff, eq_refl, inl, inr, ◌⊎◌, subst, sym, ap, Bool-cases,
}
use openldap_operator.Go.{Fault, Result, ok, err}
use openldap_operator.Ldap.Goldap.{SearchEntry, Goldap, no_such_object}
use openldap_operator.Ldap.Delete.{delete_entry}
use openldap_operator.Ldap.Delete.Tree.{IsTree, Listed, Under, Removed}
use openldap_operator.Ldap.Delete.Subtree.{delete_entry-Removed}
use openldap_operator.Tests.Clients.{admin}

-- What the directory holds.
data Held : Type 0 where
  nothing top top_and_child : Held

abbrev top_dn : String
top_dn = "ou=teams,dc=example,dc=com"

abbrev child_dn : String
child_dn = "cn=admins,ou=teams,dc=example,dc=com"

abbrev has : Held → String → Bool
has nothing x = false
has top x = x == top_dn
has top_and_child x = if x == child_dn then true else x == top_dn

abbrev is_child : String → String → Bool
is_child x p = if x == child_dn then p == top_dn else false

abbrev rank : String → ℕ
rank x = if x == child_dn then 1 else 0

abbrev missing : Fault
missing = record { text = "No Such Object"; not_found = false; result_code = some no_such_object }

abbrev not_leaf : Fault
not_leaf = record { text = "Not Allowed On Non Leaf"; not_found = false; result_code = some 66 }

abbrev child_entry : SearchEntry
child_entry = record {
  dn = child_dn;
  get_attribute_value = λ a. "";
  get_attribute_values = λ a. [];
}

abbrev children : Held → String → List SearchEntry
children nothing x = []
children top x = []
children top_and_child x = if x == top_dn then child_entry ∷ [] else []

abbrev del_reply : Held → String → Result Fault (Unit {0}) × Held
del_reply nothing x = (err missing, nothing)
del_reply top x = if x == top_dn then (ok tt, nothing) else (err missing, top)
del_reply top_and_child x =
    if x == child_dn
    then (ok tt, top)
    else if x == top_dn
    then (err not_leaf, top_and_child)
    else (err missing, top_and_child)

abbrev server : Goldap Held
server = record {
  dial_url = λ a p s. (ok 7, s);
  set_timeout = λ conn n s. s;
  bind = λ conn u p s. (ok tt, s);
  search = λ conn q s. (
    if has s q.base_dn
        then record { entries = some (children s q.base_dn); error = none }
        else record { entries = some []; error = some missing },
    s,
  );
  add = λ conn q s. (ok tt, s);
  modify = λ conn q s. (ok tt, s);
  del = λ conn dn s. del_reply s dn;
  password_modify = λ conn q s. (ok tt, s);
  close = λ conn s. s;
}

-- Only the upper entry is a parent, of the lower one.
is_child-eq : (x p : String) → is_child x p ≡ true → (x ≡ child_dn) × (p ≡ top_dn)
is_child-eq x p h = ground (arith, eq_iff x child_dn, eq_iff p top_dn)

parent_there-server :
    (s : Held) (x p : String) → has s x ≡ true → is_child x p ≡ true → has s p ≡ true
parent_there-server nothing x p h k = h
parent_there-server top x p h k = ground (arith, eq_iff x child_dn, eq_iff p top_dn)
parent_there-server top_and_child x p h k = ground (arith, eq_iff x child_dn, eq_iff p top_dn)

child-not_top : (x : String) → (x == child_dn) ≡ true → (x == top_dn) ≡ false
child-not_top x h =
    let e : x ≡ child_dn = ground (arith, eq_iff x child_dn) in
    subst (λ y. (y == top_dn) ≡ false) (sym e) refl

-- A name is a given one, or compares as different.
is-dn : (x y : String) → (x ≡ y) ⊎ ((x == y) ≡ false)
is-dn x y = elim (Bool-cases (x == y)) [ inl e ↦ inl (ground (arith, eq_iff x y)) | inr e ↦ inr e ]

there-children :
    (s : Held) (dn x : String) → has s x ≡ true → is_child x dn ≡ true → Listed x (children s dn)
there-children nothing dn x h k = ground arith
there-children top dn x h k = absurd (ground (arith, child-not_top x))
there-children top_and_child dn x h k =
    let (e, f) = is_child-eq x dn k in
    subst (λ d. Listed x (children top_and_child d)) (sym f) (inl (sym e))

children-there :
    (s : Held) (dn x : String)
    → Listed x (children s dn)
    → (has s x ≡ true) × (is_child x dn ≡ true)
children-there nothing dn x k = absurd k
children-there top dn x k = absurd k
children-there top_and_child dn x k = elim (is-dn dn top_dn) [
  | inl f ↦ elim (subst (λ d. Listed x (children top_and_child d)) f k) [
    | inl p ↦ (ground (arith, eq_refl x), ground (arith, eq_refl x, eq_refl dn))
    | inr q ↦ absurd q
  ]
  | inr n ↦ absurd (subst (λ b. Listed x (if b then child_entry ∷ [] else [])) n k)
]

del_leaf-server :
    (dn : String) (s : Held)
    → has s dn ≡ true
    → ((x : String) → is_child x dn ≡ true → has s x ≡ false)
    → (del_reply s dn).0 ≡ ok tt
del_leaf-server dn nothing h leaf = ground arith
del_leaf-server dn top h leaf = rw h
del_leaf-server dn top_and_child h leaf = elim (Bool-cases (dn == child_dn)) [
  | inl e ↦ rw e
  | inr n ↦ absurd (ground (arith, leaf child_dn (ground arith)))
]

del_leaf_has-server :
    (dn : String) (s : Held)
    → has s dn ≡ true
    → ((x : String) → is_child x dn ≡ true → has s x ≡ false)
    → (x : String) → has (del_reply s dn).1 x ≡ (if x == dn then false else has s x)
del_leaf_has-server dn nothing h leaf x = ground arith
del_leaf_has-server dn top h leaf x =
    rw h (ground (arith, eq_iff dn top_dn, eq_iff x dn, eq_iff x top_dn))
del_leaf_has-server dn top_and_child h leaf x = elim (Bool-cases (dn == child_dn)) [
  | inl e ↦
      rw e (ground (arith, child-not_top x, eq_iff dn child_dn, eq_iff x dn, eq_iff x child_dn))
  | inr n ↦ absurd (ground (arith, leaf child_dn (ground arith)))
]

del_missing-server : (dn : String) (s : Held) → has s dn ≡ false → del_reply s dn ≡ (err missing, s)
del_missing-server dn nothing h = refl
del_missing-server dn top h = rw h
del_missing-server dn top_and_child h = ground arith

server-IsTree : IsTree server admin has is_child rank
server-IsTree = record {
  child_rank = λ x p h. ground (arith, child-not_top p);
  parent_there = parent_there-server;
  dials = λ s. (7, s, refl);
  dial_same = λ s. refl;
  set_timeout_same = λ conn n s. refl;
  admits = λ conn s. refl;
  bind_same = λ conn s. refl;
  close_same = λ conn s. refl;
  search_same = λ conn dn s. refl;
  search_there = λ conn dn s h.
      (children s dn, rw h, λ x k. children-there s dn x k, λ x k l. there-children s dn x k l);
  search_missing = λ conn dn s h. (missing, refl, rw h);
  del_leaf = λ conn dn s. del_leaf-server dn s;
  del_leaf_has = λ conn dn s. del_leaf_has-server dn s;
  del_missing = λ conn dn s h. (missing, refl, ap (λ r. r.0) (del_missing-server dn s h));
  del_missing_same = λ conn dn s h. ap (λ r. has r.1) (del_missing-server dn s h);
}

rank-bound : (x : String) → rank x ≤ 1
rank-bound x = ground arith

delete_entry-Removed_example :
    (t : Held) × (delete_entry server 2 admin top_dn true top_and_child ≡ (ok tt, t))
    × Removed (has top_and_child) (has t) (Under is_child top_dn)
delete_entry-Removed_example =
    delete_entry-Removed server admin has is_child rank server-IsTree 1 2 top_dn top_and_child
      (λ x h. rank-bound x) (omega arith) (omega arith)
