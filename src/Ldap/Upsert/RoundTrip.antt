-- ===== src/Ldap/Upsert/RoundTrip.antt =====
-- What the client's reads make of an entry that the client's add requests created.
use openldap_operator.Base.{String, ◌==◌, List, [], ◌∷◌, if◌then◌else◌}
use openldap_operator.Ldap.{
  OrganizationalUnit, Group, User, Entry, organizational_unit, group, user,
}
use openldap_operator.Ldap.Goldap.{SearchEntry, Attribute, AddRequest, Goldap}
use openldap_operator.Ldap.Client.{Client}
use openldap_operator.Ldap.Upsert.Requests.{organizational_unit_add, group_add, user_add}

-- The values of a named attribute.
unfoldable pub values_of : List Attribute → String → List String
values_of [] name = []
values_of (a ∷ l) name = let rest = values_of l name in if a.name == name then a.values else rest

-- `GetAttributeValue` of the values: the first, or the empty text.
abbrev pub first_value : List String → String
first_value [] = ""
first_value (v ∷ vs) = v

-- The entry that a server keeps for an add request.
unfoldable pub added_entry : AddRequest → SearchEntry
unfolding values_of
added_entry r = record {
  dn = r.dn;
  get_attribute_value = λ name. first_value (values_of r.attributes name);
  get_attribute_values = values_of r.attributes;
}

-- The add request for an entry.
unfoldable pub entry_add : Entry → AddRequest
unfolding organizational_unit_add group_add user_add
entry_add (organizational_unit ou) = organizational_unit_add ou
entry_add (group gr) = group_add gr
entry_add (user u) = user_add u

-- An entry without its password, which is not set by the add request.
unfoldable pub without_password : Entry → Entry
without_password (organizational_unit ou) = organizational_unit ou
without_password (group gr) = group gr
without_password (user u) = user (record u { password = "" })

abbrev read_as_unit : SearchEntry → OrganizationalUnit
read_as_unit e = record {
  distinguished_name = e.dn;
  name = e.get_attribute_value "ou";
  description = e.get_attribute_value "description";
}

abbrev read_as_group : SearchEntry → Group
read_as_group e = record {
  distinguished_name = e.dn;
  name = e.get_attribute_value "cn";
  description = e.get_attribute_value "description";
  members = e.get_attribute_values "member";
}

abbrev read_as_user : SearchEntry → User
read_as_user e = record {
  distinguished_name = e.dn;
  username = e.get_attribute_value "uid";
  name = e.get_attribute_value "cn";
  surname = e.get_attribute_value "sn";
  email = e.get_attribute_value "mail";
  password = e.get_attribute_value "userPassword";
}
