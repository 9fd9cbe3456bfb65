-- ===== src/Api/Zero.antt =====
-- Empty objects, as `&T{}` and `reflect.New` make them.
use openldap_operator.Base.{none, []}
use openldap_operator.Api.{
  ObjectMeta, unset, LdapObjectSpec, SimpleStatus, LdapGroup, LdapOrganizationalUnit, LdapUser,
  LdapDirectory,
}

abbrev pub zero_meta : ObjectMeta
zero_meta = record {
  name = "";
  namespace = "";
  generation = 0;
  deletion_timestamp = none;
  finalizers = [];
  labels = [];
  owner_references = [];
}

abbrev pub zero_spec : LdapObjectSpec
zero_spec = record { directory_ref = record { name = "" }; parent_ref = none }

abbrev pub zero_status : SimpleStatus
zero_status = record { phase = unset; observed_generation = 0; message = "" }

abbrev pub zero_group : LdapGroup
zero_group = record {
  meta = zero_meta;
  spec = record { object_spec = zero_spec; name = ""; description = ""; members = [] };
  status = zero_status;
}

abbrev pub zero_organizational_unit : LdapOrganizationalUnit
zero_organizational_unit = record {
  meta = zero_meta;
  spec = record { object_spec = zero_spec; name = ""; description = "" };
  status = zero_status;
}

abbrev pub zero_user : LdapUser
zero_user = record {
  meta = zero_meta;
  spec = record {
    object_spec = zero_spec;
    username = "";
    name = "";
    surname = "";
    email = "";
    password_secret_ref = none;
  };
  status = zero_status;
}

abbrev pub zero_directory : LdapDirectory
zero_directory = record {
  meta = zero_meta;
  spec = record {
    image = "";
    domain = "";
    organization = "";
    certificate_secret_ref = record { name = "" };
    debug_level = none;
    file_descriptor_limit = none;
    address_override = "";
    volume_mounts = [];
    volume_claim_templates = [];
    resources = record { limits = []; requests = []; claims = [] };
  };
  status = record { phase = unset; observed_generation = 0; conditions = [] };
}
