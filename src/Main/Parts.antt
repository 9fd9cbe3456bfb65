-- ===== src/Main/Parts.antt =====
-- What cmd/ldap-operator/main.go gives to the manager, and views of it.
use openldap_operator.Base.{String, ◌≡◌, List, [], ◌∷◌, ◌++◌}
use openldap_operator.Go.{ok, Result}
use openldap_operator.Go.Calls.{Keeps}
use openldap_operator.Main.Flags.{Options, parse_options}
use openldap_operator.Main.Process.{
  Exit, or_exit, Registration, ManagerOptions, Runtime, directories, groups, organizational_units,
  users,
}
use openldap_operator.Api.Zero.{
  zero_meta, zero_directory, zero_group, zero_organizational_unit, zero_user,
}
use openldap_operator.Api.{directory, ldap_object, Object, named, other}
use openldap_operator.Api
use openldap_operator.Main.{
  manager_options, directory_reconciler, group_reconciler, organizational_unit_reconciler,
  user_reconciler,
}

-- What the manager is given: a controller, or a check by its name.
pub data Part (W Client Scheme Recorder : Type 0) : Type 0 where
  controller : Registration W Client Scheme Recorder → Part W Client Scheme Recorder
  healthz readyz : String → Part W Client Scheme Recorder

module _ {S W Level Config Manager Client Scheme Recorder Context : Type 0}
    (run : Runtime S W Level Config Manager Client Scheme Recorder Context) where
  -- A view of what the manager was given, the last part first: a call that gives it a part and
  -- succeeds adds the part, and the other calls before the start leave the view as it is.
  pub record Logs (log : S → List (Part W Client Scheme Recorder)) : Type 0 where
    pub complete :
        (mgr : Manager) (r : Registration W Client Scheme Recorder) (s t : S)
        → run.complete mgr r s ≡ (ok tt, t)
        → log t ≡ controller r ∷ log s
    pub healthz_check :
        (mgr : Manager) (name : String) (s t : S)
        → run.add_healthz_check mgr name s ≡ (ok tt, t)
        → log t ≡ healthz name ∷ log s
    pub readyz_check :
        (mgr : Manager) (name : String) (s t : S)
        → run.add_readyz_check mgr name s ≡ (ok tt, t)
        → log t ≡ readyz name ∷ log s
    pub logger : (level : Level) (s : S) → log (run.set_logger level s) ≡ log s
    pub config : (others : List (String × String)) → Keeps log (run.get_config others)
    pub manager :
        (config : Config) (o : ManagerOptions Scheme) → Keeps log (run.new_manager config o)
    pub signals : (s : S) → log (run.setup_signal_handler s).1 ≡ log s

  -- A view that no call before the start changes.
  pub record Quiet {V : Type 0} (running : S → V) : Type 0 where
    pub complete :
        (mgr : Manager) (r : Registration W Client Scheme Recorder)
        → Keeps running (run.complete mgr r)
    pub healthz_check :
        (mgr : Manager) (name : String) → Keeps running (run.add_healthz_check mgr name)
    pub readyz_check :
        (mgr : Manager) (name : String) → Keeps running (run.add_readyz_check mgr name)
    pub logger : (level : Level) (s : S) → running (run.set_logger level s) ≡ running s
    pub config : (others : List (String × String)) → Keeps running (run.get_config others)
    pub manager :
        (config : Config) (o : ManagerOptions Scheme) → Keeps running (run.new_manager config o)

  -- The controller of directories, which watches the stateful sets and services that they own, those
  -- of the three types of objects, and both checks, the last first.
  abbrev pub parts : Manager → List (Part W Client Scheme Recorder)
  parts mgr =
      readyz "readyz"
      ∷ healthz "healthz"
      ∷ controller (record {
        for_object = named (ldap_object (Api.LdapObject.user zero_user));
        owns = [];
        reconciler = users (user_reconciler run mgr);
      })
      ∷ controller (record {
        for_object =
            named (ldap_object (Api.LdapObject.organizational_unit zero_organizational_unit));
        owns = [];
        reconciler = organizational_units (organizational_unit_reconciler run mgr);
      })
      ∷ controller (record {
        for_object = named (ldap_object (Api.LdapObject.group zero_group));
        owns = [];
        reconciler = groups (group_reconciler run mgr);
      })
      ∷ controller (record {
        for_object = named (directory zero_directory);
        owns = other "StatefulSet" zero_meta ∷ other "Service" zero_meta ∷ [];
        reconciler = directories (directory_reconciler run mgr);
      })
      ∷ []

  -- The manager is one that `NewManager` made, with the options that the flags give it.
  pub record IsCreated (scheme : Scheme) (o : Options) (manager : Manager) : Type 0 where
    pub config : Config
    pub before : S
    pub after : S
    pub created : run.new_manager config (manager_options run scheme o) before ≡ (ok manager, after)

  -- A run that started the manager: with the options that were parsed, in a state where the log has
  -- grown by just the parts of the manager; and it ended as the start did.
  pub record IsStarted (log : S → List (Part W Client Scheme Recorder)) (scheme : Scheme)
      (others args : List String) (s : S) (outcome : Result Exit (Unit {0}) × S) : Type 0 where
    pub options : Options
    pub parses : parse_options others args ≡ ok options
    pub manager : Manager
    pub created : IsCreated scheme options manager
    pub context : Context
    pub at : S
    pub logged : log at ≡ parts manager ++ log s
    pub ends : outcome ≡ or_exit "problem running manager" (run.start manager context) at
