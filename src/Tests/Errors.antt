-- ===== src/Tests/Errors.antt =====
-- The reconciler of directories where its stateful set cannot be read.
use openldap_operator.Base.{◌≡◌, refl, none}
use openldap_operator.Go.{Error, fault, wrapf, err, ◌>>=◌}
use openldap_operator.Api.{failed, is_zero}
use openldap_operator.Api.References.{resolve_directory_references}
use openldap_operator.Controller.Directories.Calls.{DirectoryKube}
use openldap_operator.Controller.Directories.Marks.{write_failed, with_phase}
use openldap_operator.Controller.Directories.{reconcile}
use openldap_operator.Controller.Directories.Reports.{Reported}
use openldap_operator.Controller.Directories.Errors.{reconcile-Reported}
use openldap_operator.Tests.Directories.{
  World, empty, cluster, store, found_secret, request, missing,
}

abbrev broken : DirectoryKube World
broken = record (cluster none 1) { get_stateful_set = λ key s. (err missing, s) }

abbrev not_readable : Error
not_readable =
    wrapf "failed to check if statefulset is ready"
      (wrapf "failed to get statefulset" (fault missing))

test_broken :
    reconcile broken request (store (found_secret "old") empty)
    ≡ (err not_readable, record (store (found_secret "old") empty) { phase = failed; writes = 2 })
unfolding reconcile ◌>>=◌ resolve_directory_references write_failed with_phase is_zero
test_broken = refl

reconcile-Reported_example :
    Reported broken request
      (store (found_secret "old") empty)
      not_readable
      (record (store (found_secret "old") empty) { phase = failed; writes = 2 })
reconcile-Reported_example =
    reconcile-Reported broken request (store (found_secret "old") empty)
      (record (store (found_secret "old") empty) { phase = failed; writes = 2 }) not_readable
      test_broken
