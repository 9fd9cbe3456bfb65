-- ===== src/Api/Scheme.antt =====
-- api/v1alpha1/groupversion_info.go, and the `init` functions and list types beside the types: what
-- the package registers with a scheme.
use openldap_operator.Base.{String, List, [], ◌∷◌}
use openldap_operator.Go.{Fault, Result, ok, err, panic, unfinished}
use openldap_operator.Api.{
  LdapDirectory, LdapGroup, LdapOrganizationalUnit, LdapUser, NamedLdapObject, directory,
  ldap_object, group, organizational_unit, user,
}
use openldap_operator.Api.Zero.{zero_directory, zero_group, zero_organizational_unit, zero_user}

-- `schema.GroupVersion`
pub record GroupVersion : Type 0 where
  pub group : String
  pub version : String

-- `GroupVersion`
abbrev pub group_version : GroupVersion
group_version = record { group = "ldap.gpu-ninja.com"; version = "v1alpha1" }

pub record LdapDirectoryList : Type 0 where
  pub items : List LdapDirectory

pub record LdapGroupList : Type 0 where
  pub items : List LdapGroup

pub record LdapOrganizationalUnitList : Type 0 where
  pub items : List LdapOrganizationalUnit

pub record LdapUserList : Type 0 where
  pub items : List LdapUser

-- A value by which a type is registered.
pub data Known : Type 0 where
  object : NamedLdapObject → Known
  directory_list : LdapDirectoryList → Known
  group_list : LdapGroupList → Known
  organizational_unit_list : LdapOrganizationalUnitList → Known
  user_list : LdapUserList → Known

-- `SchemeBuilder.Register(…)`, of each `init`
abbrev pub register_directory : List Known
register_directory = object (directory zero_directory) ∷ directory_list (record { items = [] }) ∷ []

abbrev pub register_group : List Known
register_group = object (ldap_object (group zero_group)) ∷ group_list (record { items = [] }) ∷ []

abbrev pub register_organizational_unit : List Known
register_organizational_unit =
    object (ldap_object (organizational_unit zero_organizational_unit))
    ∷ organizational_unit_list (record { items = [] })
    ∷ []

abbrev pub register_user : List Known
register_user = object (ldap_object (user zero_user)) ∷ user_list (record { items = [] }) ∷ []

-- `SchemeBuilder` after the `init` functions, which run in the order of the files.
abbrev pub scheme_builder : List (List Known)
scheme_builder =
    register_directory ∷ register_group ∷ register_organizational_unit ∷ register_user ∷ []

module _ {Scheme : Type 0}
    (add_known_types : GroupVersion → List Known → Scheme → Result Fault Scheme) where
  unfoldable pub add_next :
      (Scheme → Result Fault Scheme) → Result Fault Scheme → Result Fault Scheme
  add_next next (ok scheme) = next scheme
  add_next next (err f) = err f
  add_next next (panic p) = panic p
  add_next next unfinished = unfinished

  -- What is registered, added to a scheme by the call of apimachinery, up to the first error.
  unfoldable pub add_all : List (List Known) → Scheme → Result Fault Scheme
  unfolding add_next
  add_all [] scheme = ok scheme
  add_all (ks ∷ kss) scheme = add_next (add_all kss) (add_known_types group_version ks scheme)

  -- `AddToScheme`
  unfoldable pub add_to_scheme : Scheme → Result Fault Scheme
  unfolding add_all
  add_to_scheme = add_all scheme_builder
