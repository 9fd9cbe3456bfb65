-- ===== src/Api/References/Passing.antt =====
-- When the references of an object pass `ResolveReferences`.
use openldap_operator.Base.{
  ◌≡◌, refl, sym, subst, ◌↔◌, Bool, true, false, Option, none, some, List, [], ◌∷◌, ◌++◌,
}
use openldap_operator.Go.{Fault}
use openldap_operator.Api.{
  LdapObject, group, organizational_unit, user, ldap_object, Object, named, Resolved, Reader,
  resolve_directory, ObjectReference, LocalObjectReference, LocalSecretReference, LdapObjectSpec,
}
use openldap_operator.Api.References.{
  Check, all_found, check_rest, check_then, check_parent, check_secret, check_spec,
  resolve_references,
}

-- What `ResolveReferences` says is `(true, nil)`.
abbrev pub Passed : Check → Type 0
Passed c = (c.found ≡ true) × (c.error ≡ none)

-- Every reply has found its object, without an error.
abbrev pub AllFound : List Resolved → Type 0
AllFound [] = Unit {0}
AllFound (x ∷ l) = ((x.found ≡ true) × (x.error ≡ none)) × AllFound l

-- A world that resolving references leaves alone.
pub record LooksUp {S : Type 0} (r : Reader S) (s : S) : Type 0 where
  pub object_same : (ref : ObjectReference) (o : Object) → (r.resolve_object ref o s).1 ≡ s
  pub local_same :
      (ref : LocalObjectReference) (o : Object) → (r.resolve_local_object ref o s).1 ≡ s
  pub secret_same : (ref : LocalSecretReference) (o : Object) → (r.resolve_secret ref o s).1 ≡ s

module _ {S : Type 0} (r : Reader S) (s : S) where
  abbrev parent_reply : Object → Option LocalObjectReference → List Resolved
  parent_reply self none = []
  parent_reply self (some ref) = (r.resolve_local_object ref self s).0 ∷ []

  abbrev secret_reply : Object → Option LocalSecretReference → List Resolved
  secret_reply self none = []
  secret_reply self (some ref) = (r.resolve_secret ref self s).0 ∷ []

  abbrev spec_replies : Object → LdapObjectSpec → List Resolved → List Resolved
  spec_replies self spec l =
      (resolve_directory r spec.directory_ref self s).0 ∷ (parent_reply self spec.parent_ref ++ l)

  -- The replies for the references of an object: its directory, its parent and, of a user, the
  -- secret with the password, where these are named.
  abbrev pub replies : LdapObject → List Resolved
  replies (group g) = spec_replies (named (ldap_object (group g))) g.spec.object_spec []
  replies (organizational_unit ou) =
      spec_replies (named (ldap_object (organizational_unit ou))) ou.spec.object_spec []
  replies (user u) =
      let self = named (ldap_object (user u)) in
      spec_replies self u.spec.object_spec (secret_reply self u.spec.password_secret_ref)

  check_then-Passed :
      (resolve : S → Resolved × S) (rest : S → Check × S) (l : List Resolved)
      → (resolve s).1 ≡ s
      → (Passed (rest s).0 ↔ AllFound l)
      → (Passed (check_then resolve rest s).0 ↔ AllFound ((resolve s).0 ∷ l))
  unfolding check_then check_rest
  check_then-Passed resolve rest l same h =
      go (resolve s).0.found (resolve s).0.error (resolve s).1 same
    where
      go :
          (b : Bool) (e : Option Fault) (t : S)
          → t ≡ s
          → (Passed (check_rest b e rest t).0 ↔ (((b ≡ true) × (e ≡ none)) × AllFound l))
      go false e t p = (λ q. absurd (cc q.0), λ q. absurd (cc q.0.0))
      go true (some f) t p = (λ q. absurd (cc q.1), λ q. absurd (cc q.0.1))
      go true none t p = (
        λ q. ((refl, refl), h.0 (subst (λ w. Passed (rest w).0) p q)),
        λ q. subst (λ w. Passed (rest w).0) (sym p) (h.1 q.1),
      )

  module _ (same : LooksUp r s) where
    check_parent-Passed :
        (self : Object) (ref : Option LocalObjectReference) (rest : S → Check × S)
        (l : List Resolved)
        → (Passed (rest s).0 ↔ AllFound l)
        → (Passed (check_parent r self ref rest s).0 ↔ AllFound (parent_reply self ref ++ l))
    unfolding check_parent
    check_parent-Passed self none rest l h = h
    check_parent-Passed self (some ref) rest l h =
        check_then-Passed (r.resolve_local_object ref self) rest l (same.local_same ref self) h

    check_secret-Passed :
        (self : Object) (ref : Option LocalSecretReference) (rest : S → Check × S)
        → Passed (rest s).0
        → (Passed (check_secret r self ref rest s).0 ↔ AllFound (secret_reply self ref))
    unfolding check_secret
    check_secret-Passed self none rest h = (λ _. tt, λ _. h)
    check_secret-Passed self (some ref) rest h =
        check_then-Passed (r.resolve_secret ref self) rest [] (same.secret_same ref self)
          (λ _. tt, λ _. h)

    check_spec-Passed :
        (self : Object) (spec : LdapObjectSpec) (rest : S → Check × S) (l : List Resolved)
        → (Passed (rest s).0 ↔ AllFound l)
        → (Passed (check_spec r self spec rest s).0 ↔ AllFound (spec_replies self spec l))
    unfolding check_spec resolve_directory
    check_spec-Passed self spec rest l h =
        check_then-Passed (resolve_directory r spec.directory_ref self)
          (check_parent r self spec.parent_ref rest) (parent_reply self spec.parent_ref ++ l)
          (same.object_same _ self) (check_parent-Passed self spec.parent_ref rest l h)

    -- Where lookups leave the world alone, `ResolveReferences` of an object says that all is well
    -- exactly if each of the references that the object names resolves, without an error.
    pub resolve_references-Passed :
        (o : LdapObject) → (Passed (resolve_references r o s).0 ↔ AllFound (replies o))
    unfolding resolve_references
    resolve_references-Passed (group g) =
        check_spec-Passed _ g.spec.object_spec (λ t. (all_found, t)) [] (λ _. tt, λ _. (refl, refl))
    resolve_references-Passed (organizational_unit ou) =
        check_spec-Passed _ ou.spec.object_spec (λ t. (all_found, t)) []
          (λ _. tt, λ _. (refl, refl))
    resolve_references-Passed (user u) =
        let self = named (ldap_object (user u)) in
        check_spec-Passed self u.spec.object_spec
          (check_secret r self u.spec.password_secret_ref (λ t. (all_found, t)))
          (secret_reply self u.spec.password_secret_ref)
          (check_secret-Passed self u.spec.password_secret_ref (λ t. (all_found, t)) (refl, refl))
