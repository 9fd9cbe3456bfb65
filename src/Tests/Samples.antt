-- ===== src/Tests/Samples.antt =====
-- Objects of a cluster, and entries of a directory, for the tests.
use openldap_operator.Base.{String, Option, none, [], ◌∷◌}
use openldap_operator.Api.{
  Phase, unset, ready, ObjectMeta, LocalObjectReference, LocalLdapDirectoryReference, SimpleStatus,
  LdapGroup, LdapOrganizationalUnit, LdapDirectory,
}
use openldap_operator.Ldap.{OrganizationalUnit, Group, User}

abbrev pub meta : String → ObjectMeta
meta name = record {
  name = name;
  namespace = "default";
  generation = 1;
  deletion_timestamp = none;
  finalizers = [];
  labels = [];
  owner_references = [];
}

abbrev pub status : Phase → SimpleStatus
status p = record { phase = p; observed_generation = 1; message = "" }

abbrev pub directory_in : Phase → String → LdapDirectory
directory_in p domain = record {
  meta = meta "directory";
  spec = record {
    image = "openldap";
    domain = domain;
    organization = "Example";
    certificate_secret_ref = record { name = "certificate" };
    debug_level = none;
    file_descriptor_limit = none;
    address_override = "";
    volume_mounts = [];
    volume_claim_templates = [];
    resources = record { limits = []; requests = []; claims = [] };
  };
  status = record { phase = p; observed_generation = 1; conditions = [] };
}

abbrev pub directory_ref : LocalLdapDirectoryReference
directory_ref = record { name = "directory" }

abbrev pub unit_ref : LocalObjectReference
unit_ref = record {
  api_version = "ldap.gpu-ninja.com/v1alpha1";
  kind = "LDAPOrganizationalUnit";
  name = "teams";
}

abbrev pub unit_below : Option LocalObjectReference → LdapOrganizationalUnit
unit_below parent = record {
  meta = meta "teams";
  spec = record {
    object_spec = record { directory_ref = directory_ref; parent_ref = parent };
    name = "teams";
    description = "";
  };
  status = status ready;
}

abbrev pub group_below : Option LocalObjectReference → LdapGroup
group_below parent = record {
  meta = meta "admins";
  spec = record {
    object_spec = record { directory_ref = directory_ref; parent_ref = parent };
    name = "admins";
    description = "";
    members = [];
  };
  status = status unset;
}

abbrev pub unit_entry : OrganizationalUnit
unit_entry = record {
  distinguished_name = "ou=teams,dc=example,dc=com";
  name = "teams";
  description = "All teams";
}

abbrev pub group_entry : Group
group_entry = record {
  distinguished_name = "cn=admins,dc=example,dc=com";
  name = "admins";
  description = "";
  members = "uid=demo,dc=example,dc=com" ∷ [];
}

abbrev pub user_entry : String → User
user_entry password = record {
  distinguished_name = "uid=demo,dc=example,dc=com";
  username = "demo";
  name = "Demo User";
  surname = "User";
  email = "demo@example.com";
  password = password;
}
