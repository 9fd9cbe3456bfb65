-- ===== src/Main.antt =====
-- cmd/ldap-operator/main.go, with the `SetupWithManager` of both reconcilers (internal/controller):
-- the flags, the manager, the controllers that it is given, its checks, and its start. Log lines are
-- left out.
pub mod Flags
pub mod Process
pub mod Typing
pub mod Parts
pub mod Started
pub mod Program
use openldap_operator.Base.{String, List, [], ◌∷◌}
use openldap_operator.Go.{
  Fault, Result, ok, err, panic, unfinished, M, pure, lift, effect, ask, ◌>>=◌, ◌>>◌,
}
use openldap_operator.Api.{
  LdapGroup, LdapOrganizationalUnit, LdapUser, directory, ldap_object, named, other,
}
use openldap_operator.Ldap.{OrganizationalUnit, Group, User}
use openldap_operator.Ldap.Builder.{ClientBuilder, new_client_builder, with_client, with_scheme}
use openldap_operator.Mapper.{organizational_unit_to_entry, group_to_entry, user_to_entry}
use openldap_operator.Api.Scheme.{add_to_scheme}
use openldap_operator.Main.Flags.{Options, parse_options}
use openldap_operator.Api.Zero.{zero_meta, zero_directory}
use openldap_operator.Main.Process.{
  Exit, flag_exit, or_exit, or_panic, EntryMapper, LdapObjectReconciler, LdapDirectoryReconciler,
  directories, Registration, ManagerOptions, ObjectType, group_type, organizational_unit_type,
  user_type, Runtime, SchemeCalls,
}

module _ {S W Level Config Manager Client Scheme Recorder Context : Type 0}
    (run : Runtime S W Level Config Manager Client Scheme Recorder Context) where
  -- `LDAPDirectoryReconciler.SetupWithManager`
  unfoldable pub setup_directories :
      LdapDirectoryReconciler Client Scheme Recorder → Manager → M S Fault (Unit {0})
  setup_directories r mgr = run.complete mgr (record {
    for_object = named (directory zero_directory);
    owns = other "StatefulSet" zero_meta ∷ other "Service" zero_meta ∷ [];
    reconciler = directories r;
  })

  -- `LDAPObjectReconciler.SetupWithManager`
  unfoldable pub setup_objects :
      {T E : Type 0}
      → ObjectType T E
      → LdapObjectReconciler W Client Scheme Recorder T E
      → Manager
      → M S Fault (Unit {0})
  setup_objects type r mgr = run.complete mgr (record {
    for_object = named (ldap_object (type.as_object type.new_instance));
    owns = [];
    reconciler = type.as_reconciler r;
  })

  unfoldable pub ldap_client_builder : Manager → ClientBuilder Client Scheme
  unfolding new_client_builder with_client with_scheme
  ldap_client_builder mgr =
      with_scheme (with_client new_client_builder (run.get_client mgr)) (run.get_scheme mgr)

  unfoldable pub directory_reconciler : Manager → LdapDirectoryReconciler Client Scheme Recorder
  directory_reconciler mgr = record {
    client = run.get_client mgr;
    scheme = run.get_scheme mgr;
    recorder = run.get_event_recorder_for mgr "ldapdirectory-controller";
  }

  -- An object reconciler of `main`, by the name of its recorder and its mapper.
  unfoldable pub object_reconciler :
      {T E : Type 0}
      → Manager
      → String
      → EntryMapper W T E
      → LdapObjectReconciler W Client Scheme Recorder T E
  unfolding ldap_client_builder
  object_reconciler mgr name map_to_entry = record {
    client = run.get_client mgr;
    scheme = run.get_scheme mgr;
    recorder = run.get_event_recorder_for mgr name;
    ldap_client_builder = ldap_client_builder mgr;
    map_to_entry = map_to_entry;
  }

  unfoldable pub group_reconciler :
      Manager → LdapObjectReconciler W Client Scheme Recorder LdapGroup Group
  unfolding object_reconciler group_to_entry
  group_reconciler mgr =
      object_reconciler mgr "ldapgroup-controller" (λ reader dn g. pure (group_to_entry dn g))

  unfoldable pub organizational_unit_reconciler :
      Manager
      → LdapObjectReconciler W Client Scheme Recorder LdapOrganizationalUnit OrganizationalUnit
  unfolding object_reconciler organizational_unit_to_entry
  organizational_unit_reconciler mgr =
      object_reconciler mgr "ldaporganizationalunit-controller"
        (λ reader dn ou. pure (organizational_unit_to_entry dn ou))

  unfoldable pub user_reconciler :
      Manager → LdapObjectReconciler W Client Scheme Recorder LdapUser User
  unfolding object_reconciler user_to_entry
  user_reconciler mgr =
      object_reconciler mgr "ldapuser-controller" (λ reader dn u. user_to_entry reader dn u)

  -- The options of the manager.
  unfoldable pub manager_options : Scheme → Options → ManagerOptions Scheme
  manager_options scheme o = record {
    scheme = scheme;
    metrics_bind_address = o.metrics_addr;
    health_probe_bind_address = o.probe_addr;
    leader_election = o.enable_leader_election;
    leader_election_id = "49e56cbc.gpu-ninja.com";
  }

  -- `GetConfigOrDie` and `NewManager`.
  unfoldable pub create_manager : Scheme → Options → M S Exit Manager
  unfolding or_exit manager_options
  create_manager scheme o = do
    config ← or_exit "unable to get kubeconfig" (run.get_config o.others)
    or_exit "unable to start manager" (run.new_manager config (manager_options scheme o))

  unfoldable pub add_controllers : Manager → M S Exit (Unit {0})
  unfolding or_exit setup_directories setup_objects group_type organizational_unit_type user_type
      directory_reconciler group_reconciler organizational_unit_reconciler user_reconciler
  add_controllers mgr = do
    or_exit "unable to create controller LDAPDirectory"
        (setup_directories (directory_reconciler mgr) mgr)
    or_exit "unable to create controller LDAPGroup"
        (setup_objects group_type (group_reconciler mgr) mgr)
    or_exit "unable to create controller LDAPOrganizationalUnit"
        (setup_objects organizational_unit_type (organizational_unit_reconciler mgr) mgr)
    or_exit "unable to create controller LDAPUser"
        (setup_objects user_type (user_reconciler mgr) mgr)

  unfoldable pub add_checks : Manager → M S Exit (Unit {0})
  unfolding or_exit
  add_checks mgr = do
    or_exit "unable to set up health check" (run.add_healthz_check mgr "healthz")
    or_exit "unable to set up ready check" (run.add_readyz_check mgr "readyz")

  unfoldable pub set_up : Scheme → Options → M S Exit Manager
  unfolding or_panic create_manager add_controllers add_checks
  set_up scheme o = do
    level ← lift (or_panic (run.parse_level o.zap_log_level))
    effect (run.set_logger level)
    mgr ← create_manager scheme o
    add_controllers mgr
    add_checks mgr
    pure mgr

  unfoldable pub start_manager : Manager → M S Exit (Unit {0})
  unfolding or_exit
  start_manager mgr = do
    context ← ask run.setup_signal_handler
    or_exit "problem running manager" (run.start mgr context)

  -- `flag.Parse` on the arguments, with the flags that linked packages define.
  unfoldable pub parsed : List String → List String → Result Exit Options
  unfolding parse_options flag_exit
  parsed others args = elim (parse_options others args) [
    | ok o ↦ ok o
    | err e ↦ err (flag_exit e)
    | panic p ↦ panic p
    | unfinished ↦ unfinished
  ]

  unfoldable pub main : Scheme → List String → List String → M S Exit (Unit {0})
  unfolding parsed set_up start_manager
  main scheme others args = do
    o ← lift (parsed others args)
    mgr ← set_up scheme o
    start_manager mgr

  -- `init`
  unfoldable pub init : SchemeCalls Scheme → Result Exit Scheme
  unfolding or_panic add_to_scheme
  init calls = elim (or_panic (calls.add_client_go calls.new_scheme)) [
    | ok scheme ↦ or_panic (add_to_scheme calls.add_known_types scheme)
    | err e ↦ err e
    | panic p ↦ panic p
    | unfinished ↦ unfinished
  ]

  -- The program: `init`, then `main`.
  unfoldable pub program : SchemeCalls Scheme → List String → List String → M S Exit (Unit {0})
  unfolding init main
  program calls others args = do scheme ← lift (init calls); main scheme others args
