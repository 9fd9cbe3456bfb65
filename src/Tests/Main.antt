-- ===== src/Tests/Main.antt =====
-- The program of cmd/ldap-operator/main.go on a small process.
use openldap_operator.Base.{String, ◌≡◌, refl, ◌⊎◌, Bool, true, false, List, [], ◌∷◌}
use openldap_operator.Go.{Result, ok, ◌>>=◌}
use openldap_operator.Go.Calls.{IsUnanswered}
use openldap_operator.Go.Flags.{parse_flags}
use openldap_operator.Main.Flags.{default_options, parse_options}
use openldap_operator.Main.Flags.CommandLine.{metrics, leader_election, parse_options-written}
use openldap_operator.Main.Process.{or_exit, or_panic, Exit, SchemeCalls, Runtime}
use openldap_operator.Main.Parts.{Part, controller, healthz, readyz, Logs, Quiet, IsStarted}
use openldap_operator.Main.{init, program}
use openldap_operator.Main.Program.{program-starts}
use openldap_operator.Main.Typing.{StartsTyped, program-StartsTyped}

-- What the manager was given, and whether it runs.
abbrev World : Type 0
World = List (Part (Unit {0}) (Unit {0}) (Unit {0}) String) × Bool

abbrev process :
    Runtime World
      (Unit {0})
      (Unit {0})
      (Unit {0})
      (Unit {0})
      (Unit {0})
      (Unit {0})
      String
      (Unit {0})
process = record {
  parse_level = λ text. ok tt;
  set_logger = λ level s. s;
  get_config = λ others s. (ok tt, s);
  new_manager = λ config o s. (ok tt, s);
  get_client = λ mgr. tt;
  get_scheme = λ mgr. tt;
  get_event_recorder_for = λ mgr name. name;
  complete = λ mgr r s. (ok tt, (controller r ∷ s.0, s.1));
  add_healthz_check = λ mgr name s. (ok tt, (healthz name ∷ s.0, s.1));
  add_readyz_check = λ mgr name s. (ok tt, (readyz name ∷ s.0, s.1));
  setup_signal_handler = λ s. (tt, s);
  start = λ mgr context s. (ok tt, (s.0, true));
}

process-Logs : Logs process (λ s. s.0)
process-Logs = record {
  complete = λ mgr r s t e. cc;
  healthz_check = λ mgr name s t e. cc;
  readyz_check = λ mgr name s t e. cc;
  logger = λ level s. refl;
  config = λ others. record { same = λ s. refl };
  manager = λ config o. record { same = λ s. refl };
  signals = λ s. refl;
}

process-Quiet : Quiet process (λ s. s.1)
process-Quiet = record {
  complete = λ mgr r. record { same = λ s. refl };
  healthz_check = λ mgr name. record { same = λ s. refl };
  readyz_check = λ mgr name. record { same = λ s. refl };
  logger = λ level s. refl;
  config = λ others. record { same = λ s. refl };
  manager = λ config o. record { same = λ s. refl };
}

abbrev schemes : SchemeCalls (Unit {0})
schemes = record {
  new_scheme = tt;
  add_client_go = λ scheme. ok scheme;
  add_known_types = λ version known scheme. ok scheme;
}

abbrev outcome : Result Exit (Unit {0}) × World
outcome = program process schemes [] ("-leader-elect" ∷ []) ([], false)

program-starts_example :
    ((scheme : Unit {0}) × (init process schemes ≡ ok scheme)
      × IsStarted process (λ s. s.0) scheme [] ("-leader-elect" ∷ []) ([], false) outcome)
    ⊎ (IsUnanswered outcome.0 × (outcome.1.1 ≡ false))
program-starts_example =
    program-starts process schemes (λ s. s.1) (λ s. s.0) process-Quiet process-Logs []
      ("-leader-elect" ∷ []) ([], false)

-- The manager runs here.
test_started : outcome.1.1 ≡ true
unfolding program or_exit or_panic ◌>>=◌ parse_options parse_flags
test_started = refl

program-StartsTyped_example :
    StartsTyped process (λ s. s.0) ([], false) outcome
    ⊎ (IsUnanswered outcome.0 × (outcome.1.1 ≡ false))
program-StartsTyped_example =
    program-StartsTyped process schemes (λ s. s.1) (λ s. s.0) process-Quiet process-Logs []
      ("-leader-elect" ∷ []) ([], false)

parse_options-written_example :
    parse_options ("kubeconfig" ∷ []) ("-metrics-bind-address" ∷ ":9090" ∷ "--leader-elect" ∷ [])
    ≡ ok (record default_options { metrics_addr = ":9090"; enable_leader_election = true })
parse_options-written_example =
    parse_options-written ("kubeconfig" ∷ []) (metrics ":9090" ∷ leader_election true ∷ [])
