-- ===== src/Controller/Directories.antt =====
-- internal/controller/ldapdirectory_controller.go: the reconciler of directories. `Reconcile` is cut
-- into a function for each stage; a stage ends the call or goes on to the next. Log lines are left
-- out.
pub mod Resources
pub mod Templates
pub mod Calls
pub mod Conditions
pub mod Deletion
pub mod Marks
pub mod Secrets
pub mod Readiness
pub mod Reports
pub mod Errors
pub mod Stages
pub mod Settled
pub mod Endings
pub mod Passwords
use openldap_operator.Base.{
  ℕ, String, Bool, true, false, not, Option, none, some, List, [], ◌∷◌, nat_eq, if◌then◌else◌,
}
use openldap_operator.Go.{
  Fault, Error, fault, wrapf, Result, ok, err, panic, unfinished, M, pure, lift, call, call_or,
  on_err, effect, ask, attempt, map_err, unless, ◌>>=◌, ◌>>◌,
}
use openldap_operator.Api.{is_zero, LdapDirectory, Secret}
use openldap_operator.Api.References.{Check, resolve_directory_references}
use openldap_operator.Ldap.Builder.{admin_password_secret_name}
use openldap_operator.Controller.{NamespacedName, Outcome, normal, warning, finalizer_name}
use openldap_operator.Controller.Marks.{done, is_ready, with_value}
use openldap_operator.Controller.Directories.Resources.{StatefulSetState}
use openldap_operator.Controller.Directories.Templates.{
  resource_name, resource_meta, stateful_set_template, service_template,
}
use openldap_operator.Controller.Directories.Calls.{DirectoryKube}
use openldap_operator.Controller.Directories.Marks.{mark_ready, fail_with, or_fail, wait_for}

-- `adminPasswordLength`
abbrev pub admin_password_length : ℕ
admin_password_length = 32

-- The secret of the admin password, without its contents.
unfoldable pub admin_password_secret : LdapDirectory → Secret
unfolding resource_meta admin_password_secret_name
admin_password_secret d = record {
  meta = record (resource_meta d) { name = admin_password_secret_name d };
  contents = [];
}

-- `sts.Status.ReadyReplicas == *sts.Spec.Replicas`, a panic if the pointer is nil.
unfoldable pub replicas_ready : StatefulSetState → Result Error Bool
replicas_ready sts = elim sts.replicas [
  | none ↦ panic "invalid memory address or nil pointer dereference"
  | some n ↦ ok (nat_eq sts.ready_replicas n)
]

module _ {S : Type 0} (k : DirectoryKube S) where
  unfoldable pub patch :
      (Error → Error)
      → LdapDirectory
      → (LdapDirectory → Result Error LdapDirectory)
      → M S Error LdapDirectory
  unfolding with_value
  patch f d change = do r ← ask (k.create_or_patch d change); on_err f (lift (with_value r.0 r.1))

  unfoldable pub ensure_finalizer : LdapDirectory → M S Error LdapDirectory
  unfolding patch
  ensure_finalizer d =
      if not (k.contains_finalizer d finalizer_name)
      then patch (wrapf "failed to add finalizer") d (λ x. ok (k.add_finalizer x finalizer_name))
      else pure d

  -- A directory that is being deleted.
  unfoldable pub delete_stage : LdapDirectory → M S Error Outcome
  unfolding patch
  delete_stage d =
      if k.contains_finalizer d finalizer_name
      then (do
        _ ←
            patch (wrapf "failed to remove finalizer") d
              (λ x. ok (k.remove_finalizer x finalizer_name))
        pure done)
      else pure done

  -- A new admin password.
  unfoldable pub create_admin_password : LdapDirectory → M S Error (Unit {0})
  unfolding admin_password_secret
  create_admin_password d = do
    pw ←
        call_or "failed to generate random admin password"
          (k.generate_password admin_password_length)
    owned ← lift (
        map_err (λ f. wrapf "failed to set owner reference on admin password secret" (fault f))
          (k.set_secret_owner d
            (record (admin_password_secret d) { contents = ("password", pw) ∷ [] })))
    call_or "failed to create admin password secret" (k.create_secret owned)

  -- What `Get` says of the admin password: only a missing one is made.
  unfoldable pub admin_password_got : LdapDirectory → Result Fault Secret → M S Error (Unit {0})
  unfolding create_admin_password
  admin_password_got d (ok _) = pure tt
  admin_password_got d (err f) =
      if f.not_found
      then create_admin_password d
      else lift (err (wrapf "failed to get admin password secret" (fault f)))
  admin_password_got d (panic p) = lift (panic p)
  admin_password_got d unfinished = lift unfinished

  unfoldable pub ensure_admin_password : LdapDirectory → M S Error (Unit {0})
  unfolding admin_password_got admin_password_secret_name
  ensure_admin_password d = do
    r ← attempt (
        k.get_secret (record { namespace = d.meta.namespace; name = admin_password_secret_name d }))
    admin_password_got d r

  unfoldable pub reconcile_stateful_set : LdapDirectory → M S Error (Unit {0})
  unfolding or_fail stateful_set_template
  reconcile_stateful_set d = do
    sts ←
        or_fail k d "Failed to generate statefulset template"
          "failed to generate statefulset template"
          (lift (stateful_set_template k.set_owner_reference d))
    or_fail k d "Failed to reconcile statefulset" "failed to reconcile statefulset"
        (call (k.apply_stateful_set sts))

  unfoldable pub reconcile_service : LdapDirectory → M S Error (Unit {0})
  unfolding or_fail service_template
  reconcile_service d = do
    svc ←
        or_fail k d "Failed to generate service template" "failed to generate service template"
          (lift (service_template k.set_controller_reference d))
    or_fail k d "Failed to reconcile service" "failed to reconcile service"
        (call (k.apply_service svc))

  -- `isStatefulSetReady`
  unfoldable pub is_stateful_set_ready : LdapDirectory → M S Error Bool
  unfolding resource_name replicas_ready
  is_stateful_set_ready d = do
    sts ←
        call_or "failed to get statefulset"
          (k.get_stateful_set (record { namespace = d.meta.namespace; name = resource_name d }))
    lift (replicas_ready sts)

  -- The last stage, of a directory whose stateful set is ready.
  unfoldable pub publish : LdapDirectory → M S Error Outcome
  unfolding mark_ready is_ready
  publish d =
      if not (is_ready d.status.phase)
      then (do
        effect (k.event d normal "Created" "Successfully created")
        mark_ready k d
        pure done)
      else pure done

  unfoldable pub check_ready : LdapDirectory → M S Error Outcome
  unfolding or_fail is_stateful_set_ready wait_for publish
  check_ready d = do
    stateful_set_ready ←
        or_fail k d "Failed to check if statefulset is ready"
          "failed to check if statefulset is ready" (is_stateful_set_ready d)
    (if not stateful_set_ready
        then wait_for k d normal "Pending" "Waiting for statefulset to become ready"
        else publish d)

  unfoldable pub create_or_update : LdapDirectory → M S Error Outcome
  unfolding ensure_admin_password reconcile_stateful_set reconcile_service check_ready
  create_or_update d = do
    ensure_admin_password d
    reconcile_stateful_set d
    reconcile_service d
    check_ready d

  unfoldable pub check_references : LdapDirectory → M S Error Outcome
  unfolding unless resolve_directory_references fail_with wait_for create_or_update
  check_references d = do
    check ← ask (resolve_directory_references k.reader d)
    unless check.error
        (λ f. fail_with k d "Failed to resolve references" "failed to resolve references" (fault f))
        (if check.found
          then create_or_update d
          else wait_for k d warning "NotReady" "Not all references are resolvable")

  unfoldable pub found : LdapDirectory → M S Error Outcome
  unfolding delete_stage check_references
  found d = if not (is_zero d.meta.deletion_timestamp) then delete_stage d else check_references d

  -- What `Get` says: a missing directory needs nothing more.
  unfoldable pub got : Result Fault LdapDirectory → M S Error Outcome
  unfolding ensure_finalizer found
  got (ok d) = do d' ← ensure_finalizer d; found d'
  got (err f) = if f.not_found then pure done else lift (err (fault f))
  got (panic p) = lift (panic p)
  got unfinished = lift unfinished

  -- `Reconcile`
  unfoldable pub reconcile : NamespacedName → M S Error Outcome
  unfolding got
  reconcile req = do r ← attempt (k.get req); got r
