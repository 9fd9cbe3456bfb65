-- ===== src/Api/References.antt =====
-- `ResolveReferences` of the four types.
pub mod Passing
pub mod Preserving
use openldap_operator.Base.{Bool, true, false, Option, none, some}
use openldap_operator.Go.{Fault}
use openldap_operator.Api.{
  LdapDirectory, LdapObject, group, organizational_unit, user, directory, ldap_object, Object,
  named, Resolved, Reader, resolve_directory, LocalObjectReference, LocalSecretReference,
  LdapObjectSpec,
}

-- The pair `(ok, err)` that `ResolveReferences` returns.
pub record Check : Type 0 where
  pub found : Bool
  pub error : Option Fault

abbrev pub all_found : Check
all_found = record { found = true; error = none }

module _ {S : Type 0} where
  -- `if !ok || err != nil { return ok, err }`, then the rest.
  unfoldable pub check_rest : Bool → Option Fault → (S → Check × S) → S → Check × S
  check_rest false e rest s = (record { found = false; error = e }, s)
  check_rest true (some f) rest s = (record { found = true; error = some f }, s)
  check_rest true none rest s = rest s

  -- The same after `_, ok, err = ref.Resolve(…)`.
  unfoldable pub check_then : (S → Resolved × S) → (S → Check × S) → S → Check × S
  unfolding check_rest
  check_then resolve rest s = let (res, s') = resolve s in check_rest res.found res.error rest s'

  module _ (r : Reader S) (self : Object) where
    unfoldable pub check_parent : Option LocalObjectReference → (S → Check × S) → S → Check × S
    unfolding check_then
    check_parent none rest = rest
    check_parent (some ref) rest = check_then (r.resolve_local_object ref self) rest

    unfoldable pub check_secret : Option LocalSecretReference → (S → Check × S) → S → Check × S
    unfolding check_then
    check_secret none rest = rest
    check_secret (some ref) rest = check_then (r.resolve_secret ref self) rest

    -- The references that the three types share, then the rest.
    unfoldable pub check_spec : LdapObjectSpec → (S → Check × S) → S → Check × S
    unfolding check_then check_parent resolve_directory
    check_spec spec rest =
        check_then (resolve_directory r spec.directory_ref self) (check_parent spec.parent_ref rest)

  -- `ResolveReferences` of an `api.LDAPObject`.
  unfoldable pub resolve_references : Reader S → LdapObject → S → Check × S
  unfolding check_spec check_secret
  resolve_references r (group g) =
      check_spec r (named (ldap_object (group g))) g.spec.object_spec (λ s. (all_found, s))
  resolve_references r (organizational_unit ou) =
      check_spec r (named (ldap_object (organizational_unit ou))) ou.spec.object_spec
        (λ s. (all_found, s))
  resolve_references r (user u) =
      let self = named (ldap_object (user u)) in
      check_spec r self u.spec.object_spec
        (check_secret r self u.spec.password_secret_ref (λ s. (all_found, s)))

  -- `LDAPDirectory.ResolveReferences`
  unfoldable pub resolve_directory_references : Reader S → LdapDirectory → S → Check × S
  unfolding check_then
  resolve_directory_references r d =
      check_then (r.resolve_secret d.spec.certificate_secret_ref (named (directory d)))
        (λ s. (all_found, s))
