-- ===== src/Controller/Directories/Stages.antt =====
-- What the reconciler of directories preserves, from what its calls preserve
-- (internal/controller/ldapdirectory_controller.go).
use openldap_operator.Base.{ℕ, String}
use openldap_operator.Go.{
  Fault, Error, fault, Result, ok, err, panic, unfinished, M, pure, call, ask,
}
use openldap_operator.Go.Preserves.{
  Preserves, preserves_rules, Preserves->>=, Preserves-on_result, Preserves-pure, Preserves-ask,
  Preserves-unless,
}
use openldap_operator.Api.{LdapDirectory, Object, directory, named, LocalSecretReference}
use openldap_operator.Api.References.{resolve_directory_references}
use openldap_operator.Api.References.Preserving.{check_then-P}
use openldap_operator.Controller.{NamespacedName, EventType}
use openldap_operator.Controller.Directories.Resources.{StatefulSet, Service}
use openldap_operator.Controller.Directories.Calls.{DirectoryKube}
use openldap_operator.Controller.Directories.Marks.{
  write_pending, write_failed, mark_pending, mark_failed, fail_with, or_fail, wait_for,
}
use openldap_operator.Controller.Directories.{
  patch, ensure_finalizer, delete_stage, reconcile_stateful_set, reconcile_service,
  is_stateful_set_ready, check_ready, create_or_update, check_references, found, got, reconcile,
  ensure_admin_password,
}

-- What the calls preserve, but for the marks of a status, and for what reads and makes the secret.
pub record CallsPreserve {S : Type 0} (k : DirectoryKube S) (P : S → Type 0) : Type 0 where
  pub resolve_secret :
      (ref : LocalSecretReference) (o : Object) (s : S)
      → P s
      → P (k.reader.resolve_secret ref o s).1
  pub get : (req : NamespacedName) → Preserves P (k.get req)
  pub create_or_patch :
      (d : LdapDirectory) (f : LdapDirectory → Result Error LdapDirectory) (s : S)
      → P s
      → P (k.create_or_patch d f s).1
  pub event :
      (d : LdapDirectory) (t : EventType) (r m : String) (s : S) → P s → P (k.event d t r m s)
  pub get_secret : (key : NamespacedName) → Preserves P (k.get_secret key)
  pub generate_password : (n : ℕ) → Preserves P (k.generate_password n)
  pub apply_stateful_set : (sts : StatefulSet) → Preserves P (k.apply_stateful_set sts)
  pub apply_service : (svc : Service) → Preserves P (k.apply_service svc)
  pub get_stateful_set : (key : NamespacedName) → Preserves P (k.get_stateful_set key)

module _ {S : Type 0} (k : DirectoryKube S) (P : S → Type 0) (calls : CallsPreserve k P) where
  pub patch-P :
      (f : Error → Error) (d : LdapDirectory) (change : LdapDirectory → Result Error LdapDirectory)
      → Preserves P (patch k f d change)
  unfolding patch
  patch-P f d change = search (calls.create_or_patch, preserves_rules)

  pub ensure_finalizer-P : (d : LdapDirectory) → Preserves P (ensure_finalizer k d)
  unfolding ensure_finalizer
  ensure_finalizer-P d = search (patch-P, preserves_rules)

  pub delete_stage-P : (d : LdapDirectory) → Preserves P (delete_stage k d)
  unfolding delete_stage
  delete_stage-P d = search (patch-P, preserves_rules)

  pub is_stateful_set_ready-P : (d : LdapDirectory) → Preserves P (is_stateful_set_ready k d)
  unfolding is_stateful_set_ready
  is_stateful_set_ready-P d = search (calls.get_stateful_set, preserves_rules)

  module _ (marks_pending : (d : LdapDirectory) → Preserves P (write_pending k d))
      (marks_failed : (e : Error) (d : LdapDirectory) → Preserves P (write_failed k e d)) where
    mark_failed-P : (d : LdapDirectory) (e : Error) → Preserves P (mark_failed k d e)
    unfolding mark_failed
    mark_failed-P d e = search (marks_failed, preserves_rules)

    pub fail_with-P :
        {A : Type 0} (d : LdapDirectory) (a b : String) (e : Error)
        → Preserves {A = A} P (fail_with k d a b e)
    unfolding fail_with
    fail_with-P d a b e = search (mark_failed-P, calls.event, preserves_rules)

    pub wait_for-P :
        (d : LdapDirectory) (t : EventType) (r m : String) → Preserves P (wait_for k d t r m)
    unfolding wait_for mark_pending
    wait_for-P d t r m = search (marks_pending, calls.event, preserves_rules)

    pub or_fail-P :
        {A : Type 0} (d : LdapDirectory) (a b : String) (m : M S Error A)
        → Preserves P m
        → Preserves P (or_fail k d a b m)
    unfolding or_fail
    or_fail-P d a b m h =
        Preserves-on_result m _ pure h (fail_with-P d a b) (λ s x e. Preserves-pure x)

    call-P : {A : Type 0} (m : M S Fault A) → Preserves P m → Preserves P (call m)
    unfolding call
    call-P m h = record { at = h.at }

    reconcile_stateful_set-P : (d : LdapDirectory) → Preserves P (reconcile_stateful_set k d)
    unfolding reconcile_stateful_set
    reconcile_stateful_set-P d =
        search (or_fail-P, call-P, calls.apply_stateful_set, preserves_rules)

    reconcile_service-P : (d : LdapDirectory) → Preserves P (reconcile_service k d)
    unfolding reconcile_service
    reconcile_service-P d = search (or_fail-P, call-P, calls.apply_service, preserves_rules)

    module _ (password : (d : LdapDirectory) → Preserves P (ensure_admin_password k d))
        (last : (d : LdapDirectory) → Preserves P (check_ready k d)) where
      create_or_update-P : (d : LdapDirectory) → Preserves P (create_or_update k d)
      unfolding create_or_update
      create_or_update-P d =
          search (password, last, reconcile_stateful_set-P, reconcile_service-P, preserves_rules)

      check_references-P : (d : LdapDirectory) → Preserves P (check_references k d)
      unfolding check_references resolve_directory_references
      check_references-P d =
          Preserves->>= (ask (resolve_directory_references k.reader d)) _
            (Preserves-ask _ (
              check_then-P P
                (k.reader.resolve_secret d.spec.certificate_secret_ref (named (directory d))) _
                (calls.resolve_secret _ _) (λ s h. h)))
            λ check.
              Preserves-unless check.error _ _
                (λ f.
                  fail_with-P d "Failed to resolve references" "failed to resolve references"
                    (fault f))
                (search (create_or_update-P, wait_for-P, preserves_rules))

      found-P : (d : LdapDirectory) → Preserves P (found k d)
      unfolding found
      found-P d = search (delete_stage-P, check_references-P, preserves_rules)

      got-P : (r : Result Fault LdapDirectory) → Preserves P (got k r)
      unfolding got
      got-P (ok d) = search (ensure_finalizer-P, found-P, preserves_rules)
      got-P (err f) = search preserves_rules
      got-P (panic p) = search preserves_rules
      got-P unfinished = search preserves_rules

      -- `Reconcile` preserves what its calls, its last stage and its first one do.
      pub reconcile-P : (req : NamespacedName) → Preserves P (reconcile k req)
      unfolding reconcile
      reconcile-P req = search (calls.get, got-P, preserves_rules)
