-- ===== src/Tests/Names.antt =====
-- Distinguished names in a small cluster.
use openldap_operator.Base.{
  String, ◌<>◌, ◌↔◌, ◌≡◌, refl, sym, subst, true, false, Option, none, some, List, [], ◌∷◌, arith,
}
use openldap_operator.Go.{ok, unfinished}
use openldap_operator.Go.Strings.{split, join, replace_all}
use openldap_operator.Api.{
  ready, LdapDirectory, LocalObjectReference, get_ldap_object_spec, resolve_directory, LdapObject,
  group, organizational_unit, directory, ldap_object, Object, named, Resolved, Reader,
}
use openldap_operator.Api.Naming.{get_distinguished_name, directory_dn}
use openldap_operator.Api.Naming.Chains
use openldap_operator.Ldap.Builder.{base_dn}
use openldap_operator.Ldap.Builder.Names
use openldap_operator.Api.References.{resolve_references}
use openldap_operator.Api.References.Passing
use openldap_operator.Tests.Samples.{directory_in, unit_ref, unit_below, group_below}

abbrev example_com : LdapDirectory
example_com = directory_in ready "example.com"

abbrev found_object : Object → Resolved
found_object o = record { object = some o; found = true; error = none }

-- A cluster in which each parent is the unit, below the given parent, in the one directory.
abbrev cluster : Option LocalObjectReference → Reader (Unit {0})
cluster parent = record {
  resolve_object = λ ref o s. (found_object (named (directory example_com)), s);
  resolve_local_object =
      λ ref o s. (found_object (named (ldap_object (organizational_unit (unit_below parent)))), s);
  resolve_secret = λ ref o s. (record { object = none; found = false; error = none }, s);
}

cluster-IsReadOnly : (parent : Option LocalObjectReference) → Chains.IsReadOnly (cluster parent)
cluster-IsReadOnly parent = record { object_same = λ ref o s. refl; local_same = λ ref o s. refl }

abbrev admins : LdapObject
admins = group (group_below (some unit_ref))

abbrev teams : LdapObject
teams = organizational_unit (unit_below none)

admins-Chain : Chains.Chain (cluster none) tt (ldap_object admins) (admins ∷ teams ∷ []) example_com
unfolding get_ldap_object_spec resolve_directory
admins-Chain =
    Chains.up admins (record { no_error = refl; found = refl; same_object = refl })
      (Chains.up teams (record { no_error = refl; found = refl; same_object = refl })
        (Chains.at_directory example_com))

get_distinguished_name-Chain_example :
    get_distinguished_name (cluster none) 3 (ldap_object admins) tt
    ≡ (ok "cn=admins,ou=teams,dc=example,dc=com", tt)
unfolding directory_dn split join Chains.dn_of Chains.rdn
get_distinguished_name-Chain_example =
    Chains.get_distinguished_name-Chain (cluster none) (cluster-IsReadOnly none) 3 tt admins-Chain
      (omega arith)

Chain-get_distinguished_name_example :
    (os : List LdapObject) × (d : LdapDirectory) × Chains.Chain
      (cluster none)
      tt
      (ldap_object admins)
      os
      d
    × ("cn=admins,ou=teams,dc=example,dc=com" ≡ Chains.dn_of os d)
Chain-get_distinguished_name_example =
    Chains.Chain-get_distinguished_name (cluster none) (cluster-IsReadOnly none) 3 tt tt
      (ldap_object admins) get_distinguished_name-Chain_example

-- A unit that is its own parent.
abbrev loop : LdapObject
loop = organizational_unit (unit_below (some unit_ref))

loop-IsAbove : Chains.IsAbove (cluster (some unit_ref)) tt loop (ldap_object loop)
unfolding get_ldap_object_spec
loop-IsAbove = record { no_error = refl; found = refl; same_object = refl }

get_distinguished_name-cycle_example :
    get_distinguished_name (cluster (some unit_ref)) 1000 (ldap_object loop) tt ≡ (unfinished, tt)
get_distinguished_name-cycle_example =
    Chains.get_distinguished_name-cycle (cluster (some unit_ref))
      (cluster-IsReadOnly (some unit_ref)) (λ o. o ≡ loop) tt
      (λ o h. (
        loop,
        subst (λ x. Chains.IsAbove (cluster (some unit_ref)) tt x (ldap_object loop)) (sym h)
            loop-IsAbove,
        refl,
      ))
      1000 loop refl

test_base_dn : base_dn example_com ≡ "dc=example,dc=com"
unfolding base_dn replace_all
test_base_dn = refl

get_distinguished_name-base_dn_example :
    (os : List LdapObject) × (d : LdapDirectory) × (prefix : String) × Chains.Chain
      (cluster none)
      tt
      (ldap_object admins)
      os
      d
    × ("cn=admins,ou=teams,dc=example,dc=com" ≡ prefix <> ("," <> base_dn d))
get_distinguished_name-base_dn_example =
    Names.get_distinguished_name-base_dn (cluster none) (cluster-IsReadOnly none) 3 tt tt admins
      get_distinguished_name-Chain_example

cluster-LooksUp : (parent : Option LocalObjectReference) → Passing.LooksUp (cluster parent) tt
cluster-LooksUp parent = record {
  object_same = λ ref o. refl;
  local_same = λ ref o. refl;
  secret_same = λ ref o. refl;
}

resolve_references-Passed_example :
    Passing.Passed (resolve_references (cluster none) admins tt).0
    ↔ Passing.AllFound (Passing.replies (cluster none) tt admins)
resolve_references-Passed_example =
    Passing.resolve_references-Passed (cluster none) tt (cluster-LooksUp none) admins
