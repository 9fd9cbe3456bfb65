-- ===== src/Controller/Directories/Readiness.antt =====
-- The stored phase as the reconciler of directories leaves it while no stateful set is ready
-- (internal/controller/ldapdirectory_controller.go).
use openldap_operator.Base.{◌≡◌, ap, Bool, true, false, not, if◌then◌else◌}
use openldap_operator.Go.{Fault, Error, Result, ok, err, panic, unfinished}
use openldap_operator.Go.Preserves.{Preserves, preserves_rules, Preserves->>=_value}
use openldap_operator.Api.{Phase, ready, LdapDirectory, Secret}
use openldap_operator.Controller.{NamespacedName, normal}
use openldap_operator.Controller.Directories.Resources.{StatefulSetState}
use openldap_operator.Controller.Directories.Calls.{DirectoryKube}
use openldap_operator.Controller.Directories.Marks.{write_pending, write_failed, or_fail, wait_for}
use openldap_operator.Controller.Directories.{
  replicas_ready, is_stateful_set_ready, publish, check_ready, reconcile, ensure_admin_password,
  create_admin_password, admin_password_got,
}
use openldap_operator.Controller.Directories.Settled.{
  or_fail-eq-ok, is_stateful_set_ready-FoundReady,
}
use openldap_operator.Controller.Directories.Stages.{
  CallsPreserve, is_stateful_set_ready-P, or_fail-P, wait_for-P, reconcile-P,
}

module _ {S : Type 0} (k : DirectoryKube S) (P : S → Type 0) (calls : CallsPreserve k P)
    (creates : (x : Secret) → Preserves P (k.create_secret x)) where
  create_admin_password-P : (d : LdapDirectory) → Preserves P (create_admin_password k d)
  unfolding create_admin_password
  create_admin_password-P d = search (calls.generate_password, creates, preserves_rules)

  admin_password_got-P :
      (d : LdapDirectory) (r : Result Fault Secret) → Preserves P (admin_password_got k d r)
  unfolding admin_password_got
  admin_password_got-P d (ok x) = search preserves_rules
  admin_password_got-P d (err f) = search (create_admin_password-P, preserves_rules)
  admin_password_got-P d (panic p) = search preserves_rules
  admin_password_got-P d unfinished = search preserves_rules

  ensure_admin_password-P : (d : LdapDirectory) → Preserves P (ensure_admin_password k d)
  unfolding ensure_admin_password
  ensure_admin_password-P d = search (calls.get_secret, admin_password_got-P, preserves_rules)

  module _ (marks_pending : (d : LdapDirectory) → Preserves P (write_pending k d))
      (marks_failed : (e : Error) (d : LdapDirectory) → Preserves P (write_failed k e d))
      (never_ready : (key : NamespacedName) (s t : S) (sts : StatefulSetState)
        → k.get_stateful_set key s ≡ (ok sts, t)
        → ¬ (replicas_ready sts ≡ ok true)) where
    checked-P :
        (d : LdapDirectory) (b : Bool) (s : S)
        → (or_fail k d "Failed to check if statefulset is ready"
            "failed to check if statefulset is ready"
            (is_stateful_set_ready k d)
            s).0
          ≡ ok b
        → Preserves P (
            if not b
            then wait_for k d normal "Pending" "Waiting for statefulset to become ready"
            else publish k d)
    checked-P d false s e = wait_for-P k P calls marks_pending marks_failed d normal _ _
    checked-P d true s e =
        let (sts, got, all_ready) = is_stateful_set_ready-FoundReady k d s _ (
          or_fail-eq-ok k d _ _ (is_stateful_set_ready k d) (
            ap
              (λ r. (
                r,
                (or_fail k d "Failed to check if statefulset is ready"
                    "failed to check if statefulset is ready" (is_stateful_set_ready k d) s).1,
              ))
              e)) in
        absurd (never_ready _ s _ sts got all_ready)

    check_ready-P : (d : LdapDirectory) → Preserves P (check_ready k d)
    unfolding check_ready
    check_ready-P d =
        Preserves->>=_value _ _
          (or_fail-P k P calls marks_pending marks_failed d _ _ _
            (is_stateful_set_ready-P k P calls d))
          λ s b e. checked-P d b s e

-- Suppose that no call on the cluster makes the stored phase of a directory ready, but for the
-- write of that phase, and that no stateful set is reported with all its replicas ready. Then
-- `Reconcile` leaves a directory that is not ready not ready, for every request.
pub reconcile-unready_stateful_set :
    {S : Type 0} (k : DirectoryKube S) (phase : S → Phase)
    → CallsPreserve k (λ s. ¬ (phase s ≡ ready))
    → ((x : Secret) → Preserves (λ s. ¬ (phase s ≡ ready)) (k.create_secret x))
    → ((d : LdapDirectory) → Preserves (λ s. ¬ (phase s ≡ ready)) (write_pending k d))
    → ((e : Error) (d : LdapDirectory) → Preserves (λ s. ¬ (phase s ≡ ready)) (write_failed k e d))
    → ((key : NamespacedName) (s t : S) (sts : StatefulSetState)
        → k.get_stateful_set key s ≡ (ok sts, t)
        → ¬ (replicas_ready sts ≡ ok true))
    → (req : NamespacedName) (s : S) → ¬ (phase s ≡ ready)
    → ¬ (phase (reconcile k req s).1 ≡ ready)
reconcile-unready_stateful_set k phase calls creates marks_pending marks_failed never_ready req s =
    (reconcile-P k (λ t. ¬ (phase t ≡ ready)) calls marks_pending marks_failed
        (ensure_admin_password-P k (λ t. ¬ (phase t ≡ ready)) calls creates)
        (check_ready-P k (λ t. ¬ (phase t ≡ ready)) calls creates marks_pending marks_failed
          never_ready)
        req).at
      s
