-- ===== src/Controller/Marks.antt =====
-- internal/controller/ldapobject_controller.go: the marks of an object's status, and the calls by
-- which the reconciler's stages end or change the object.
use openldap_operator.Base.{String, ◌<>◌, Bool, true, false, Option, none, some}
use openldap_operator.Go.{
  ask, attempt, lift, on_err, ◌>>=◌, ◌>>◌, Fault, Error, wrapf, message, Result, ok, err, panic,
  unfinished, M, pure, call_or, effect, ◌>>◌,
}
use openldap_operator.Api.{
  Phase, pending, ready, failed, LdapDirectory, LdapObject, directory, ldap_object, Object, named,
  secret, other, set_status, get_meta,
}
use openldap_operator.Controller.{
  NamespacedName, Outcome, warning, finalizer_name, reconcile_retry_interval, Kube,
}

-- `ctrl.Result{}`
abbrev pub done : Outcome
done = record { requeue_after = 0 }

-- `ctrl.Result{RequeueAfter: reconcileRetryInterval}`
abbrev pub retry : Outcome
retry = record { requeue_after = reconcile_retry_interval }

-- `client.ObjectKeyFromObject(obj)`
unfoldable pub object_key : LdapObject → NamespacedName
object_key o = record { namespace = (get_meta o).namespace; name = (get_meta o).name }

-- `directory.Status.Phase != Ready` and `parentObj.GetPhase() != api.PhaseReady`
unfoldable pub is_ready : Phase → Bool
is_ready Phase.unset = false
is_ready pending = false
is_ready ready = true
is_ready failed = false

-- `directoryObj.(*LDAPDirectory)`
unfoldable pub as_directory : Option Object → Result Error LdapDirectory
as_directory none = panic "interface conversion"
as_directory (some (named (directory d))) = ok d
as_directory (some (named (ldap_object o))) = panic "interface conversion"
as_directory (some (secret s)) = panic "interface conversion"
as_directory (some (other kind meta)) = panic "interface conversion"

-- `parent.(api.LDAPObject)`
unfoldable pub as_ldap_object : Object → Option LdapObject
as_ldap_object (named (directory d)) = none
as_ldap_object (named (ldap_object o)) = some o
as_ldap_object (secret s) = none
as_ldap_object (other kind meta) = none

-- `if err := …; err != nil { log }`
unfoldable pub ignore_err {ℓ} : {E : Type ℓ} → Result E (Unit {0}) → Result Error (Unit {0})
ignore_err (ok _) = ok tt
ignore_err (err _) = ok tt
ignore_err (panic p) = panic p
ignore_err unfinished = unfinished

-- The object of a call that went well.
unfoldable pub with_value : {A : Type 0} → A → Result Error (Unit {0}) → Result Error A
with_value a (ok _) = ok a
with_value a (err e) = err e
with_value a (panic p) = panic p
with_value a unfinished = unfinished

module _ {S : Type 0} (k : Kube S) where
  -- The status update that the three marks share.
  unfoldable pub write_status : LdapObject → Phase → String → M S Fault (Unit {0})
  unfolding object_key
  write_status obj phase text = k.update_status (object_key obj) obj λ o.
      set_status o
        (record { phase = phase; observed_generation = (get_meta o).generation; message = text })

  -- `markPending`
  unfoldable pub mark_pending : LdapObject → M S Error (Unit {0})
  unfolding write_status
  mark_pending obj = call_or "failed to mark as pending" (write_status obj pending "")

  -- `markReady`
  unfoldable pub mark_ready : LdapObject → M S Error (Unit {0})
  unfolding write_status
  mark_ready obj = call_or "failed to mark as ready" (write_status obj ready "")

  -- `markFailed`
  unfoldable pub mark_failed : LdapObject → Error → M S Error (Unit {0})
  unfolding write_status ignore_err
  mark_failed obj e = do r ← attempt (write_status obj failed (message e)); lift (ignore_err r)

  -- A warning and a failed status, with the error under a text.
  unfoldable pub fail_with : LdapObject → String → String → Error → M S Error (Unit {0})
  unfolding mark_failed
  fail_with obj event_text text e = do
    effect (k.event obj warning "Failed" (event_text <> (": " <> message e)))
    mark_failed obj (wrapf text e)

  -- A warning, a pending status and another attempt later.
  unfoldable pub wait_for : LdapObject → String → M S Error Outcome
  unfolding mark_pending
  wait_for obj text = do effect (k.event obj warning "NotReady" text); mark_pending obj; pure retry

  -- `CreateOrPatch` with what is made of its error; the object as it is then.
  unfoldable pub patch :
      (Error → Error) → LdapObject → (LdapObject → Result Error LdapObject) → M S Error LdapObject
  unfolding with_value
  patch f obj change = do
    r ← ask (k.create_or_patch obj change)
    on_err f (lift (with_value r.0 r.1))

  unfoldable pub add_finalizer : LdapObject → M S Error LdapObject
  unfolding patch
  add_finalizer obj =
      patch (wrapf "failed to add finalizer") obj (λ o. ok (k.add_finalizer o finalizer_name))

  unfoldable pub remove_finalizer : LdapObject → M S Error LdapObject
  unfolding patch
  remove_finalizer obj =
      patch (wrapf "failed to remove finalizer") obj (λ o. ok (k.remove_finalizer o finalizer_name))
