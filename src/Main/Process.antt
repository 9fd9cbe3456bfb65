-- ===== src/Main/Process.antt =====
-- What cmd/ldap-operator/main.go uses of the process, of zap and of controller-runtime, and the
-- reconcilers (internal/controller) that it makes.
use openldap_operator.Base.{ℕ, String, Bool, List}
use openldap_operator.Go.{Fault, Error, Result, ok, err, panic, unfinished, M}
use openldap_operator.Go.Flags.{FlagError, help}
use openldap_operator.Api.{LdapGroup, LdapOrganizationalUnit, LdapUser, LdapObject, Object, Reader}
use openldap_operator.Api
use openldap_operator.Api.Scheme.{GroupVersion, Known}
use openldap_operator.Ldap.{OrganizationalUnit, Group, User}
use openldap_operator.Ldap.Builder.{ClientBuilder}
use openldap_operator.Api.Zero.{zero_group, zero_organizational_unit, zero_user}

-- `os.Exit(status)`, with the log line before it.
pub record Exit : Type 0 where
  pub status : ℕ
  pub text : String

-- What `flag.Parse` does with an error: `flag.ExitOnError`.
unfoldable pub flag_exit : FlagError → Exit
flag_exit e = elim e [
  | help ↦ record { status = 0; text = "" }
  | _ ↦ record { status = 2; text = "" }
]

-- `if err != nil { setupLog.Error(err, text); os.Exit(1) }`
unfoldable pub exit_with : {A : Type 0} → String → Result Fault A → Result Exit A
exit_with text (ok a) = ok a
exit_with text (err f) = err (record { status = 1; text = text })
exit_with text (panic p) = panic p
exit_with text unfinished = unfinished

unfoldable pub or_exit : {S A : Type 0} → String → M S Fault A → M S Exit A
unfolding exit_with
or_exit text m s = (exit_with text (m s).0, (m s).1)

-- `if err != nil { panic(err) }`, and `utilruntime.Must`
unfoldable pub or_panic : {E A : Type 0} → Result Fault A → Result E A
or_panic (ok a) = ok a
or_panic (err f) = panic f.text
or_panic (panic p) = panic p
or_panic unfinished = unfinished

-- `mapper.Mapper[T, E]`, over the world `W` of the controllers.
abbrev pub EntryMapper : Type 0 → Type 0 → Type 0 → Type 0
EntryMapper W T E = Reader W → String → T → M W Error E

-- `LDAPObjectReconciler[T, E]`
pub record LdapObjectReconciler (W Client Scheme Recorder T E : Type 0) : Type 0 where
  pub client : Client
  pub scheme : Scheme
  pub recorder : Recorder
  pub ldap_client_builder : ClientBuilder Client Scheme
  pub map_to_entry : EntryMapper W T E

-- `LDAPDirectoryReconciler`
pub record LdapDirectoryReconciler (Client Scheme Recorder : Type 0) : Type 0 where
  pub client : Client
  pub scheme : Scheme
  pub recorder : Recorder

-- A `reconcile.Reconciler` of the program.
pub data Reconciler (W Client Scheme Recorder : Type 0) : Type 0 where
  directories : LdapDirectoryReconciler Client Scheme Recorder → Reconciler W Client Scheme Recorder
  groups :
      LdapObjectReconciler W Client Scheme Recorder LdapGroup Group
      → Reconciler W Client Scheme Recorder
  organizational_units :
      LdapObjectReconciler W Client Scheme Recorder LdapOrganizationalUnit OrganizationalUnit
      → Reconciler W Client Scheme Recorder
  users :
      LdapObjectReconciler W Client Scheme Recorder LdapUser User
      → Reconciler W Client Scheme Recorder

-- `NewControllerManagedBy(mgr).For(…).Owns(…).Complete(r)`
pub record Registration (W Client Scheme Recorder : Type 0) : Type 0 where
  pub for_object : Object
  pub owns : List Object
  pub reconciler : Reconciler W Client Scheme Recorder

-- `ctrl.Options`, as `main` fills it.
pub record ManagerOptions (Scheme : Type 0) : Type 0 where
  pub scheme : Scheme
  pub metrics_bind_address : String
  pub health_probe_bind_address : String
  pub leader_election : Bool
  pub leader_election_id : String

-- The type parameters of an object reconciler, as values of the interfaces.
pub record ObjectType (T E : Type 0) : Type 1 where
  -- `newInstance`: an empty object of the type, by reflection.
  pub new_instance : T
  pub as_object : T → LdapObject
  pub as_reconciler :
      {W Client Scheme Recorder : Type 0}
      → LdapObjectReconciler W Client Scheme Recorder T E
      → Reconciler W Client Scheme Recorder

unfoldable pub group_type : ObjectType LdapGroup Group
group_type = record {
  new_instance = zero_group;
  as_object = Api.LdapObject.group;
  as_reconciler = groups;
}

unfoldable pub organizational_unit_type : ObjectType LdapOrganizationalUnit OrganizationalUnit
organizational_unit_type = record {
  new_instance = zero_organizational_unit;
  as_object = Api.LdapObject.organizational_unit;
  as_reconciler = organizational_units;
}

unfoldable pub user_type : ObjectType LdapUser User
user_type = record {
  new_instance = zero_user;
  as_object = Api.LdapObject.user;
  as_reconciler = users;
}

-- zap and controller-runtime, over a world `S`: the calls of `main` and of `SetupWithManager`, in
-- their order. The controllers run in a world `W`, which `main` does not look into. `get_config` is the reading by which `GetConfigOrDie` exits where it fails.
pub record Runtime (S W Level Config Manager Client Scheme Recorder Context : Type 0) : Type 0 where
  pub parse_level : String → Result Fault Level
  pub set_logger : Level → S → S
  pub get_config : List (String × String) → M S Fault Config
  pub new_manager : Config → ManagerOptions Scheme → M S Fault Manager
  pub get_client : Manager → Client
  pub get_scheme : Manager → Scheme
  pub get_event_recorder_for : Manager → String → Recorder
  pub complete : Manager → Registration W Client Scheme Recorder → M S Fault (Unit {0})
  pub add_healthz_check : Manager → String → M S Fault (Unit {0})
  pub add_readyz_check : Manager → String → M S Fault (Unit {0})
  pub setup_signal_handler : S → Context × S
  pub start : Manager → Context → M S Fault (Unit {0})

-- The calls of `init` on the scheme: `AddToScheme` of client-go, and the one by which that of package
-- v1alpha1 adds types.
pub record SchemeCalls (Scheme : Type 0) : Type 0 where
  pub new_scheme : Scheme
  pub add_client_go : Scheme → Result Fault Scheme
  pub add_known_types : GroupVersion → List Known → Scheme → Result Fault Scheme
