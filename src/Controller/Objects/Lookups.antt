-- ===== src/Controller/Objects/Lookups.antt =====
-- What the lookups of the object reconciler preserve: references, names and mapped entries.
use openldap_operator.Base.{ℕ, zero, suc, String, true, Option, none, some}
use openldap_operator.Go.{Error, Result, lift, pure, ◌>>=◌}
use openldap_operator.Go.Preserves.{Preserves, Preserves-lift, Preserves-reply, preserves_rules}
use openldap_operator.Api.{
  value_of, LdapObject, group, organizational_unit, user, NamedLdapObject, directory, ldap_object,
  Object, named, resolve_directory, ObjectReference, LocalObjectReference,
  LocalLdapDirectoryReference, LocalSecretReference, LdapUser, LdapObjectSpec,
}
use openldap_operator.Api.References.{
  Check, check_parent, check_secret, check_spec, resolve_references,
}
use openldap_operator.Api.References.Preserving.{check_then-P}
use openldap_operator.Api.Naming.{
  found_or, as_named, named_parent, named_directory, named_above, get_distinguished_name, group_dn,
  user_dn, organizational_unit_dn,
}
use openldap_operator.Mapper.{as_secret, user_password, user_to_entry, map_to_entry}
use openldap_operator.Controller.{NamespacedName, EventType, Kube}

-- What the calls on the cluster preserve, but for the writing of a status.
pub record KubePreserves {S : Type 0} (k : Kube S) (P : S → Type 0) : Type 0 where
  pub resolve_object :
      (ref : ObjectReference) (o : Object) (s : S) → P s → P (k.reader.resolve_object ref o s).1
  pub resolve_local :
      (ref : LocalObjectReference) (o : Object) (s : S)
      → P s
      → P (k.reader.resolve_local_object ref o s).1
  pub resolve_secret :
      (ref : LocalSecretReference) (o : Object) (s : S)
      → P s
      → P (k.reader.resolve_secret ref o s).1
  pub get : (req : NamespacedName) → Preserves P (k.get req)
  pub create_or_patch :
      (o : LdapObject) (f : LdapObject → Result Error LdapObject) (s : S)
      → P s
      → P (k.create_or_patch o f s).1
  pub event : (o : LdapObject) (t : EventType) (r m : String) (s : S) → P s → P (k.event o t r m s)

module _ {S : Type 0} (k : Kube S) (P : S → Type 0) (kube : KubePreserves k P) where
  check_parent-P :
      (o : Object) (ref : Option LocalObjectReference) (rest : S → Check × S)
      → ((s : S) → P s → P (rest s).1)
      → (s : S) → P s
      → P (check_parent k.reader o ref rest s).1
  unfolding check_parent
  check_parent-P o none rest j s p = j s p
  check_parent-P o (some ref) rest j s p =
      check_then-P P (k.reader.resolve_local_object ref o) rest (kube.resolve_local ref o) j s p

  check_secret-P :
      (o : Object) (ref : Option LocalSecretReference) (rest : S → Check × S)
      → ((s : S) → P s → P (rest s).1)
      → (s : S) → P s
      → P (check_secret k.reader o ref rest s).1
  unfolding check_secret
  check_secret-P o none rest j s p = j s p
  check_secret-P o (some ref) rest j s p =
      check_then-P P (k.reader.resolve_secret ref o) rest (kube.resolve_secret ref o) j s p

  check_spec-P :
      (o : Object) (spec : LdapObjectSpec) (rest : S → Check × S)
      → ((s : S) → P s → P (rest s).1)
      → (s : S) → P s
      → P (check_spec k.reader o spec rest s).1
  unfolding check_spec resolve_directory
  check_spec-P o spec rest j s p =
      check_then-P P (resolve_directory k.reader spec.directory_ref o)
        (check_parent k.reader o spec.parent_ref rest) (kube.resolve_object _ o)
        (check_parent-P o spec.parent_ref rest j) s p

  pub resolve_references-P : (o : LdapObject) (s : S) → P s → P (resolve_references k.reader o s).1
  unfolding resolve_references
  resolve_references-P (group g) s p =
      check_spec-P (named (ldap_object (group g))) g.spec.object_spec
        (λ t. (record { found = true; error = none }, t)) (λ t q. q) s p
  resolve_references-P (organizational_unit g) s p =
      check_spec-P (named (ldap_object (organizational_unit g))) g.spec.object_spec
        (λ t. (record { found = true; error = none }, t)) (λ t q. q) s p
  resolve_references-P (user g) s p =
      let self = named (ldap_object (user g)) in
      check_spec-P self g.spec.object_spec
        (check_secret k.reader self g.spec.password_secret_ref
          (λ t. (record { found = true; error = none }, t)))
        (check_secret-P self g.spec.password_secret_ref
          (λ t. (record { found = true; error = none }, t)) (λ t q. q))
        s p

  named_parent-P :
      (self : Object) (ref : LocalObjectReference) → Preserves P (named_parent k.reader self ref)
  unfolding named_parent
  named_parent-P self ref =
      Preserves-reply (k.reader.resolve_local_object ref self)
        (λ res. do
          o ← lift (found_or "referenced parent not found" res)
          lift (as_named "parent is not a named ldap object" o))
        (kube.resolve_local ref self) (λ res. search preserves_rules)

  named_directory-P :
      (self : Object) (ref : LocalLdapDirectoryReference)
      → Preserves P (named_directory k.reader self ref)
  unfolding named_directory resolve_directory
  named_directory-P self ref =
      Preserves-reply (resolve_directory k.reader ref self)
        (λ res. do
          o ← lift (found_or "referenced directory not found" res)
          lift (as_named "directory is not a named ldap object" o))
        (kube.resolve_object _ self) (λ res. search preserves_rules)

  named_above-P :
      (self : Object) (ref : Option LocalObjectReference) (d : LocalLdapDirectoryReference)
      → Preserves P (named_above k.reader self ref d)
  unfolding named_above
  named_above-P self none d = named_directory-P self d
  named_above-P self (some ref) d = named_parent-P self ref

  pub get_distinguished_name-P :
      (n : ℕ) (o : NamedLdapObject) → Preserves P (get_distinguished_name k.reader n o)
  unfolding get_distinguished_name group_dn user_dn organizational_unit_dn
  get_distinguished_name-P zero o = Preserves-lift _
  get_distinguished_name-P (suc n) (directory d) = search preserves_rules
  get_distinguished_name-P (suc n) (ldap_object (group g)) =
      search (named_above-P, get_distinguished_name-P n, preserves_rules)
  get_distinguished_name-P (suc n) (ldap_object (organizational_unit g)) =
      search (named_above-P, get_distinguished_name-P n, preserves_rules)
  get_distinguished_name-P (suc n) (ldap_object (user g)) =
      search (named_above-P, get_distinguished_name-P n, preserves_rules)

  user_password-P :
      (u : LdapUser) (ref : Option LocalSecretReference)
      → Preserves P (user_password k.reader u ref)
  unfolding user_password pure
  user_password-P u none = record { at = λ s p. p }
  user_password-P u (some ref) =
      Preserves-reply (k.reader.resolve_secret ref (named (ldap_object (user u))))
        (λ res. do
          o ← lift (found_or "referenced password secret not found" res)
          password_secret ← lift (as_secret o)
          pure (value_of password_secret.contents "password"))
        (kube.resolve_secret ref (named (ldap_object (user u)))) (λ res. search preserves_rules)

  pub map_to_entry-P : (dn : String) (o : LdapObject) → Preserves P (map_to_entry k.reader dn o)
  unfolding map_to_entry user_to_entry
  map_to_entry-P dn (group g) = search preserves_rules
  map_to_entry-P dn (organizational_unit g) = search preserves_rules
  map_to_entry-P dn (user u) = search (user_password-P, preserves_rules)
