-- ===== src/Tests/Conditions.antt =====
-- The conditions of a directory that waits and is ready then.
use openldap_operator.Base.{eq_iff, ◌≡◌, refl, inr, true, none, [], ◌∷◌, arith}
use openldap_operator.Go.{call_or}
use openldap_operator.Api.{unset, pending, ready, LdapDirectory}
use openldap_operator.Controller.Directories.Templates.{put}
use openldap_operator.Controller.Directories.Marks.{with_phase, write_ready, mark_ready}
use openldap_operator.Controller.Directories.Conditions.{
  is_true, Marked, unmarked, marked_ready, SetsCondition, HasCondition, Marked-true,
  Marked-HasCondition,
}
use openldap_operator.Tests.Samples.{directory_in}
use openldap_operator.Tests.Directories.{cluster}

cluster-SetsCondition : SetsCondition (cluster none 1)
unfolding put
cluster-SetsCondition [] c type = refl
cluster-SetsCondition (x ∷ cs) c type =
    let rest = cluster-SetsCondition cs c type in
    ground (arith, eq_iff x.type c.type, eq_iff x.type type, eq_iff c.type type)

abbrev waiting : LdapDirectory
waiting =
    with_phase (cluster none 1) pending "Pending" "LDAP directory is pending"
      (directory_in unset "example.com")

abbrev marked : LdapDirectory
marked = with_phase (cluster none 1) ready "Ready" "LDAP directory is ready" waiting

marked-Marked : Marked (cluster none 1) waiting marked
unfolding mark_ready write_ready with_phase call_or
marked-Marked = marked_ready waiting waiting waiting (unmarked waiting)

-- A directory that is ready, and has the condition that it is pending.
Marked-true_example : is_true marked.status.conditions "Pending" ≡ true
unfolding with_phase put
Marked-true_example =
    Marked-true (cluster none 1) cluster-SetsCondition _ marked "Pending" marked-Marked refl

Marked-HasCondition_example : HasCondition marked
unfolding with_phase put
Marked-HasCondition_example =
    Marked-HasCondition (cluster none 1) cluster-SetsCondition _ marked marked-Marked (inr refl)
