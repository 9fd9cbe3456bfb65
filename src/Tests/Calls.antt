-- ===== src/Tests/Calls.antt =====
-- The object reconciler with the fake client, on a mock that logs its calls.
use openldap_operator.Base.{◌≡◌, refl, true, none, List, [], ◌∷◌}
use openldap_operator.Go.{ok, ◌>>=◌}
use openldap_operator.Go.Preserves.{Preserves}
use openldap_operator.Api.{
  Phase, unset, ready, LdapObject, get_ldap_object_spec, is_zero, get_meta, get_phase, set_status,
}
use openldap_operator.Api.Naming.{get_distinguished_name}
use openldap_operator.Go.Strings.{split, join}
use openldap_operator.Mapper.{map_to_entry}
use openldap_operator.Api.References.{resolve_references}
use openldap_operator.Ldap.{group}
use openldap_operator.Ldap.Fake.{
  Call, create_or_update_entry, Mock, new_fake_client_builder, build_fake_client,
}
use openldap_operator.Ldap.Fake.Logs.{build_fake_client-Records}
use openldap_operator.Controller.Marks.{is_ready, write_status}
use openldap_operator.Controller.Objects.{reconcile}
use openldap_operator.Controller.Objects.Calls.{AtMostOne}
use openldap_operator.Controller.Objects.Single.{reconcile-AtMostOne}
use openldap_operator.Tests.Samples.{group_entry}
use openldap_operator.Tests.Objects.{cluster, cluster-LeavesAlone, request}

-- The calls of the client, the last first, and the phase that is stored for the object.
abbrev World : Type 0
World = List Call × Phase

-- Every call returns true and no error.
abbrev mock : Mock World (Unit {0})
mock = record {
  called = λ c s. (ok tt, (c ∷ s.0, s.1));
  error = λ args n. ok none;
  bool = λ args n. ok true;
}

ready-marks_alone :
    (x : List Call) (o : LdapObject)
    → Preserves (λ s. s.0 ≡ x) (write_status (cluster {L = List Call} ready) o ready "")
unfolding write_status
ready-marks_alone x o = record { at = λ s h. h }

reconcile-AtMostOne_example :
    AtMostOne
      (cluster {L = List Call} ready)
      (build_fake_client (new_fake_client_builder mock))
      8
      request
      []
      (reconcile
        (cluster ready)
        (build_fake_client (new_fake_client_builder mock))
        8
        request
        ([], unset)).1.0
unfolding new_fake_client_builder
reconcile-AtMostOne_example =
    reconcile-AtMostOne (cluster ready) (build_fake_client (new_fake_client_builder mock)) 8
      (λ s. s.0) (cluster-LeavesAlone ready) ready-marks_alone
      (build_fake_client-Records mock (λ c s. refl)) request ([], unset)

-- It is one call here.
test_one :
    (reconcile
      (cluster ready)
      (build_fake_client (new_fake_client_builder mock))
      8
      request
      ([], unset)).1
    ≡ (
      create_or_update_entry (
            group (record group_entry {
              distinguished_name = "cn=admins,dc=example,dc=com";
              members = [];
            }))
          ∷ [],
      ready,
    )
unfolding reconcile ◌>>=◌ resolve_references is_ready build_fake_client get_ldap_object_spec
    get_distinguished_name is_zero get_meta map_to_entry new_fake_client_builder join get_phase
    split set_status
test_one = refl
