-- ===== src/Main/Flags.antt =====
-- The flags of cmd/ldap-operator/main.go.
pub mod CommandLine
use openldap_operator.Base.{
  ℕ, String, Bool, true, false, Option, none, some, List, [], ◌∷◌, map, ◌++◌,
}
use openldap_operator.Go.{M, Result, ok, err, lift}
use openldap_operator.Go.Flags.{Flag, FlagError, help, parse_bool, parse_flags}

-- The variables of `main` that the flags set, and the values of the flags that linked packages
-- define, the last one first.
pub record Options : Type 0 where
  pub metrics_addr : String
  pub probe_addr : String
  pub enable_leader_election : Bool
  pub zap_log_level : String
  pub others : List (String × String)

abbrev pub default_options : Options
default_options = record {
  metrics_addr = ":8080";
  probe_addr = ":8081";
  enable_leader_election = false;
  zap_log_level = "info";
  others = [];
}

unfoldable pub metrics_flag : Flag Options
metrics_flag = record {
  name = "metrics-bind-address";
  is_bool = false;
  set = λ v o. some (record o { metrics_addr = v });
}

unfoldable pub probe_flag : Flag Options
probe_flag = record {
  name = "health-probe-bind-address";
  is_bool = false;
  set = λ v o. some (record o { probe_addr = v });
}

unfoldable pub leader_flag : Flag Options
unfolding parse_bool
leader_flag = record {
  name = "leader-elect";
  is_bool = true;
  set = λ v o. elim (parse_bool v) [
    | none ↦ none
    | some b ↦ some (record o { enable_leader_election = b })
  ];
}

unfoldable pub level_flag : Flag Options
level_flag = record {
  name = "zap-log-level";
  is_bool = false;
  set = λ v o. some (record o { zap_log_level = v });
}

-- A text flag of a linked package, such as `kubeconfig` of controller-runtime.
unfoldable pub other_flag : String → Flag Options
other_flag name = record {
  name = name;
  is_bool = false;
  set = λ v o. some (record o { others = (name, v) ∷ o.others });
}

-- The flags of the command line: those of `main`, and the given ones of linked packages.
unfoldable pub flags : List String → List (Flag Options)
unfolding metrics_flag probe_flag leader_flag level_flag other_flag
flags others = metrics_flag ∷ probe_flag ∷ leader_flag ∷ level_flag ∷ map other_flag others

-- `flag.Parse()` on the arguments.
unfoldable pub parse_options : List String → List String → Result FlagError Options
unfolding flags parse_flags
parse_options others args = parse_flags (flags others) none args default_options
