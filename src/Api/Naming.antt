-- ===== src/Api/Naming.antt =====
-- `GetDistinguishedName` of the four types. The method of an object calls that of its parent, which
-- the cluster holds, so the recursion takes fuel: one unit for each object on the way up.
pub mod Chains
use openldap_operator.Base.{ℕ, zero, suc, String, ◌<>◌, true, false, Option, none, some}
use openldap_operator.Go.{Error, fault, errorf, Result, ok, err, unfinished, M, pure, lift, ◌>>=◌}
use openldap_operator.Go.Strings.{split, join}
use openldap_operator.Api.{
  LdapGroup, LdapOrganizationalUnit, LdapUser, LdapDirectory, group, organizational_unit, user,
  NamedLdapObject, directory, ldap_object, Object, named, secret, other, Resolved, Reader,
  resolve_directory, LocalObjectReference, LocalLdapDirectoryReference,
}

-- `LDAPDirectory.GetDistinguishedName`
unfoldable pub directory_dn : LdapDirectory → String
directory_dn d = "dc=" <> join (split d.spec.domain b'.') ",dc="

-- `if !ok && err == nil { return "", fmt.Errorf(text) } else if err != nil { return "", err }`
unfoldable pub found_or : String → Resolved → Result Error (Option Object)
found_or text r = elim r.error [
  | some f ↦ err (fault f)
  | none ↦ elim r.found [ true ↦ ok r.object | false ↦ err (errorf text) ]
]

-- `named, ok := object.(api.NamedLDAPObject)`, with the error of a failure.
unfoldable pub as_named : String → Option Object → Result Error NamedLdapObject
as_named text none = err (errorf text)
as_named text (some (named n)) = ok n
as_named text (some (secret s)) = err (errorf text)
as_named text (some (other kind meta)) = err (errorf text)

module _ {S : Type 0} (r : Reader S) (self : Object) where
  -- The object that a parent reference names, as one with a distinguished name.
  unfoldable pub named_parent : LocalObjectReference → M S Error NamedLdapObject
  unfolding found_or as_named
  named_parent ref s =
      let (res, s') = r.resolve_local_object ref self s in
      let object : M S Error NamedLdapObject = do
        o ← lift (found_or "referenced parent not found" res)
        lift (as_named "parent is not a named ldap object" o)
      in object s'

  unfoldable pub named_directory : LocalLdapDirectoryReference → M S Error NamedLdapObject
  unfolding found_or as_named resolve_directory
  named_directory ref s =
      let (res, s') = resolve_directory r ref self s in
      let object : M S Error NamedLdapObject = do
        o ← lift (found_or "referenced directory not found" res)
        lift (as_named "directory is not a named ldap object" o)
      in object s'

  -- The object above: the parent if there is one, the directory otherwise.
  unfoldable pub named_above :
      Option LocalObjectReference → LocalLdapDirectoryReference → M S Error NamedLdapObject
  unfolding named_parent named_directory
  named_above (some ref) d = named_parent ref
  named_above none d = named_directory d

module _ {S : Type 0} (r : Reader S) (rec : NamedLdapObject → M S Error String) where
  -- `LDAPGroup.GetDistinguishedName`, with the call on the object above as `rec`.
  unfoldable pub group_dn : LdapGroup → M S Error String
  unfolding named_above
  group_dn g = do
    above ← named_above r (named (ldap_object (group g))) g.spec.parent_ref g.spec.directory_ref
    dn ← rec above
    pure ("cn=" <> (g.spec.name <> ("," <> dn)))

  unfoldable pub organizational_unit_dn : LdapOrganizationalUnit → M S Error String
  unfolding named_above
  organizational_unit_dn ou = do
    above ←
        named_above r (named (ldap_object (organizational_unit ou))) ou.spec.parent_ref
          ou.spec.directory_ref
    dn ← rec above
    pure ("ou=" <> (ou.spec.name <> ("," <> dn)))

  unfoldable pub user_dn : LdapUser → M S Error String
  unfolding named_above
  user_dn u = do
    above ← named_above r (named (ldap_object (user u))) u.spec.parent_ref u.spec.directory_ref
    dn ← rec above
    pure ("uid=" <> (u.spec.username <> ("," <> dn)))

-- `GetDistinguishedName`
unfoldable pub get_distinguished_name :
    {S : Type 0} → Reader S → ℕ → NamedLdapObject → M S Error String
unfolding directory_dn group_dn organizational_unit_dn user_dn
get_distinguished_name r zero o = lift unfinished
get_distinguished_name r (suc fuel) (directory d) = pure (directory_dn d)
get_distinguished_name r (suc fuel) (ldap_object (group g)) =
    group_dn r (λ o s. get_distinguished_name r fuel o s) g
get_distinguished_name r (suc fuel) (ldap_object (organizational_unit ou)) =
    organizational_unit_dn r (λ o s. get_distinguished_name r fuel o s) ou
get_distinguished_name r (suc fuel) (ldap_object (user u)) =
    user_dn r (λ o s. get_distinguished_name r fuel o s) u
