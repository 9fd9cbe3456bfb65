-- ===== src/Mapper.antt =====
-- internal/mapper/mapper.go: from an object of the cluster to the entry that it stands for.
use openldap_operator.Base.{String, Option, none, some}
use openldap_operator.Go.{Error, Result, ok, panic, M, pure, lift, ◌>>=◌}
use openldap_operator.Api.{
  value_of, LdapGroup, LdapOrganizationalUnit, LdapUser, Secret, LdapObject, group,
  organizational_unit, user, ldap_object, Object, named, secret, other, Reader,
  LocalSecretReference,
}
use openldap_operator.Api.Naming.{found_or}
use openldap_operator.Ldap.{OrganizationalUnit, Group, User, Entry}
use openldap_operator.Ldap

-- `object.(*corev1.Secret)`
unfoldable pub as_secret : Option Object → Result Error Secret
as_secret none = panic "interface conversion"
as_secret (some (named n)) = panic "interface conversion"
as_secret (some (secret s)) = ok s
as_secret (some (other kind meta)) = panic "interface conversion"

-- `OrganizationalUnitToEntry`
unfoldable pub organizational_unit_to_entry : String → LdapOrganizationalUnit → OrganizationalUnit
organizational_unit_to_entry dn ou = record {
  distinguished_name = dn;
  name = ou.spec.name;
  description = ou.spec.description;
}

-- `GroupToEntry`
unfoldable pub group_to_entry : String → LdapGroup → Group
group_to_entry dn g = record {
  distinguished_name = dn;
  name = g.spec.name;
  description = g.spec.description;
  members = g.spec.members;
}

module _ {S : Type 0} (r : Reader S) where
  -- The password of a user: that of the referenced secret, or none.
  unfoldable pub user_password : LdapUser → Option LocalSecretReference → M S Error String
  unfolding found_or as_secret value_of
  user_password u none s = pure "" s
  user_password u (some ref) s =
      let (res, s') = r.resolve_secret ref (named (ldap_object (user u))) s in
      let password : M S Error String = do
        o ← lift (found_or "referenced password secret not found" res)
        password_secret ← lift (as_secret o)
        pure (value_of password_secret.contents "password")
      in password s'

  -- `UserToEntry`
  unfoldable pub user_to_entry : String → LdapUser → M S Error User
  unfolding user_password
  user_to_entry dn u = do
    password ← user_password u u.spec.password_secret_ref
    pure (record {
      distinguished_name = dn;
      username = u.spec.username;
      name = u.spec.name;
      surname = u.spec.surname;
      email = u.spec.email;
      password = password;
    })

  -- The mapper of each reconciler, as cmd/ldap-operator/main.go pairs them.
  unfoldable pub map_to_entry : String → LdapObject → M S Error Entry
  unfolding organizational_unit_to_entry group_to_entry user_to_entry
  map_to_entry dn (organizational_unit ou) =
      pure (Ldap.Entry.organizational_unit (organizational_unit_to_entry dn ou))
  map_to_entry dn (group g) = pure (Ldap.Entry.group (group_to_entry dn g))
  map_to_entry dn (user u) = do e ← user_to_entry dn u; pure (Ldap.Entry.user e)
