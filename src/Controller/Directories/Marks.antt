-- ===== src/Controller/Directories/Marks.antt =====
-- internal/controller/ldapdirectory_controller.go: the marks of a directory's status, and the calls
-- by which the reconciler's stages end.
use openldap_operator.Base.{String, ◌<>◌, true}
use openldap_operator.Go.{
  Error, Fault, wrapf, message, err, M, pure, lift, call_or, attempt, effect, on_result, ◌>>=◌,
  ◌>>◌,
}
use openldap_operator.Api.{Phase, pending, ready, failed, Condition, LdapDirectory}
use openldap_operator.Controller.{NamespacedName, Outcome, EventType, warning}
use openldap_operator.Controller.Marks.{retry, ignore_err}
use openldap_operator.Controller.Directories.Calls.{DirectoryKube}

-- `client.ObjectKeyFromObject(directory)`
unfoldable pub object_key : LdapDirectory → NamespacedName
object_key d = record { namespace = d.meta.namespace; name = d.meta.name }

-- The condition that goes with a phase: its type is the phase's name, and so is its reason.
unfoldable pub condition_of : String → String → LdapDirectory → Condition
condition_of type text d = record {
  type = type;
  is_true = true;
  observed_generation = d.meta.generation;
  reason = type;
  message = text;
}

module _ {S : Type 0} (k : DirectoryKube S) where
  -- What the three marks make of the directory.
  unfoldable pub with_phase : Phase → String → String → LdapDirectory → LdapDirectory
  unfolding condition_of
  with_phase phase type text d = record d {
    status = record {
      phase = phase;
      observed_generation = d.meta.generation;
      conditions = k.set_status_condition d.status.conditions (condition_of type text d);
    };
  }

  -- What each of the marks does to the directory.
  abbrev pub set_pending : LdapDirectory → LdapDirectory
  set_pending = with_phase pending "Pending" "LDAP directory is pending"

  abbrev pub set_ready : LdapDirectory → LdapDirectory
  set_ready = with_phase ready "Ready" "LDAP directory is ready"

  abbrev pub set_failed : Error → LdapDirectory → LdapDirectory
  set_failed e = with_phase failed "Failed" (message e)

  unfoldable pub write_pending : LdapDirectory → M S Fault (Unit {0})
  unfolding object_key with_phase
  write_pending d = k.update_status (object_key d) d set_pending

  unfoldable pub write_ready : LdapDirectory → M S Fault (Unit {0})
  unfolding object_key with_phase
  write_ready d = k.update_status (object_key d) d set_ready

  unfoldable pub write_failed : Error → LdapDirectory → M S Fault (Unit {0})
  unfolding object_key with_phase
  write_failed e d = k.update_status (object_key d) d (set_failed e)

  -- `markPending`
  unfoldable pub mark_pending : LdapDirectory → M S Error (Unit {0})
  unfolding write_pending
  mark_pending d = call_or "failed to mark as pending" (write_pending d)

  -- `markReady`
  unfoldable pub mark_ready : LdapDirectory → M S Error (Unit {0})
  unfolding write_ready
  mark_ready d = call_or "failed to mark as ready" (write_ready d)

  -- `markFailed`
  unfoldable pub mark_failed : LdapDirectory → Error → M S Error (Unit {0})
  unfolding write_failed ignore_err
  mark_failed d e = do r ← attempt (write_failed e d); lift (ignore_err r)

  -- A warning, a failed status, and the error under a text for the caller.
  unfoldable pub fail_with : {A : Type 0} → LdapDirectory → String → String → Error → M S Error A
  unfolding mark_failed
  fail_with d event_text text e = do
    effect (k.event d warning "Failed" (event_text <> (": " <> message e)))
    mark_failed d (wrapf text e)
    lift (err (wrapf text e))

  -- A stage whose failure is reported so.
  unfoldable pub or_fail :
      {A : Type 0} → LdapDirectory → String → String → M S Error A → M S Error A
  unfolding on_result fail_with
  or_fail d event_text text m = on_result m (fail_with d event_text text) pure

  -- An event, a pending status and another attempt later.
  unfoldable pub wait_for : LdapDirectory → EventType → String → String → M S Error Outcome
  unfolding mark_pending
  wait_for d type reason text = do effect (k.event d type reason text); mark_pending d; pure retry
