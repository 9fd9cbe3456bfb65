-- ===== src/Main/Flags/CommandLine.antt =====
-- The command line of cmd/ldap-operator/main.go, written and parsed.
use openldap_operator.Base.{String, ◌≡◌, refl, Bool, true, false, none, List, [], ◌∷◌}
use openldap_operator.Go.{ok}
use openldap_operator.Go.Flags.{parse_flags, one_flag, read_argument}
use openldap_operator.Main.Flags.{Options, default_options, flags, parse_options}

-- One setting of the user.
pub data Setting : Type 0 where
  metrics probe level : String → Setting
  leader_election : Bool → Setting

abbrev pub written : List Setting → List String
written [] = []
written (metrics v ∷ l) = "-metrics-bind-address" ∷ v ∷ written l
written (probe v ∷ l) = "--health-probe-bind-address" ∷ v ∷ written l
written (level v ∷ l) = "-zap-log-level" ∷ v ∷ written l
written (leader_election true ∷ l) = "--leader-elect" ∷ written l
written (leader_election false ∷ l) = "-leader-elect=false" ∷ written l

abbrev pub with_setting : Setting → Options → Options
with_setting (metrics v) o = record o { metrics_addr = v }
with_setting (probe v) o = record o { probe_addr = v }
with_setting (level v) o = record o { zap_log_level = v }
with_setting (leader_election b) o = record o { enable_leader_election = b }

abbrev pub with_settings : List Setting → Options → Options
with_settings [] o = o
with_settings (x ∷ l) o = with_settings l (with_setting x o)

parse_flags-written :
    (others : List String) (l : List Setting) (o : Options)
    → parse_flags (flags others) none (written l) o ≡ ok (with_settings l o)
unfolding parse_flags flags one_flag read_argument
parse_flags-written others [] o = refl
parse_flags-written others (metrics v ∷ l) o = parse_flags-written others l _
parse_flags-written others (probe v ∷ l) o = parse_flags-written others l _
parse_flags-written others (level v ∷ l) o = parse_flags-written others l _
parse_flags-written others (leader_election true ∷ l) o = parse_flags-written others l _
parse_flags-written others (leader_election false ∷ l) o = parse_flags-written others l _

-- Whatever settings are written on the command line, in whatever order and with whatever values,
-- `main` starts with the defaults as these settings change them, the last of a kind being the one
-- that counts, and whatever text flags other packages define.
pub parse_options-written :
    (others : List String) (l : List Setting)
    → parse_options others (written l) ≡ ok (with_settings l default_options)
unfolding parse_options
parse_options-written others l = parse_flags-written others l default_options
