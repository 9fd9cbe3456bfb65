-- ===== src/Tests/Objects.antt =====
-- The object reconciler on small clusters.
use openldap_operator.Base.{
  ℕ, ◌+◌, String, ◌≡◌, ◌≢◌, refl, sym, ap, ◌∙◌, Bool, true, false, Option, none, some,
}
use mathlib.Core.Bool.{false≢true}
use openldap_operator.Go.{ok, ◌>>=◌}
use openldap_operator.Go.Preserves.{Preserves}
use openldap_operator.Api.{
  Phase, unset, pending, ready, failed, LdapDirectory, LdapObject, group, organizational_unit, user,
  directory, Object, named, set_status, get_phase,
}
use openldap_operator.Ldap.Interface.{LdapClient, BuildClient}
use openldap_operator.Controller.{NamespacedName, Kube}
use openldap_operator.Controller.Marks.{is_ready, write_status}
use openldap_operator.Controller.Objects.{reconcile}
use openldap_operator.Controller.Objects.Leading.{IsResolved}
use openldap_operator.Controller.Objects.Lookups.{KubePreserves}
use openldap_operator.Controller.Objects.Gate.{LeavesAlone, reconcile-not_ready}
use openldap_operator.Controller.Objects.Requeue.{Settled, reconcile-Settled}
use openldap_operator.Controller.Marks.{retry}
use openldap_operator.Api.References.{resolve_references}
use openldap_operator.Tests.Samples.{directory_in, group_below}

-- The entries that the LDAP server holds, and the phase that is stored for the object.
abbrev pub World : Type 0
World = ℕ × Phase

abbrev example_com : Phase → LdapDirectory
example_com p = directory_in p "example.com"

-- A cluster with one group directly below a directory in a given phase.
abbrev pub cluster : {L : Type 0} → Phase → Kube (L × Phase)
cluster p = record {
  reader = record {
    resolve_object = λ ref o s. (
      record { object = some (named (directory (example_com p))); found = true; error = none },
      s,
    );
    resolve_local_object = λ ref o s. (record { object = none; found = false; error = none }, s);
    resolve_secret = λ ref o s. (record { object = none; found = false; error = none }, s);
  };
  get = λ req s. (ok (group (group_below none)), s);
  create_or_patch = λ o f s. ((o, ok tt), s);
  update_status = λ key o f s. (ok tt, (s.0, get_phase (f o)));
  event = λ o t r m s. s;
  contains_finalizer = λ o f. true;
  add_finalizer = λ o f. o;
  remove_finalizer = λ o f. o;
  set_controller_reference = λ owner o. ok o;
}

-- A client whose writes succeed, and say that they created what they wrote or not.
abbrev pub made : Bool → LdapClient World
made created = record {
  ping = λ t. (ok tt, t);
  get_entry = λ dn e t. (ok e, t);
  create_or_update_entry = λ e t. (ok created, (t.0 + 1, t.1));
  delete_entry = λ dn cascading t. (ok tt, (0, t.1));
}

abbrev pub client : Bool → BuildClient World
client created d s = (ok (made created), s)

abbrev pub request : NamespacedName
request = record { namespace = "default"; name = "admins" }

pub cluster-preserves :
    {L : Type 0} (p : Phase) (P : L × Phase → Type 0) → KubePreserves (cluster {L = L} p) P
cluster-preserves p P = record {
  resolve_object = λ ref o s h. h;
  resolve_local = λ ref o s h. h;
  resolve_secret = λ ref o s h. h;
  get = λ req. record { at = λ s h. h };
  create_or_patch = λ o f s h. h;
  event = λ o t r m s h. h;
}

pub cluster-LeavesAlone : {L : Type 0} (p : Phase) → LeavesAlone (cluster {L = L} p) (λ s. s.0)
unfolding write_status
cluster-LeavesAlone p = record {
  calls = λ x. cluster-preserves p (λ s. s.0 ≡ x);
  pending_marks = λ x o. record { at = λ s h. h };
  failed_marks = λ x o text. record { at = λ s h. h };
}

-- The phase of the directory that a lookup yields.
phase_of : Option Object → Phase
phase_of (some (named (directory d))) = d.status.phase
phase_of _ = unset

only_pending :
    (o : LdapObject) (d : LdapDirectory)
    → IsResolved (cluster {L = ℕ} pending) o d
    → is_ready d.status.phase ≡ false
unfolding is_ready phase_of
only_pending o d r = ap (λ x. is_ready (phase_of x)) (sym r.yields)

reconcile-not_ready_example :
    (reconcile (cluster pending) (client true) 8 request (3, unset)).1.0 ≡ 3
reconcile-not_ready_example =
    reconcile-not_ready (cluster pending) (client true) 8 (λ s. s.0) (cluster-LeavesAlone pending)
      only_pending request (3, unset)

status-phase :
    (o : LdapObject) (p : Phase) (n : ℕ) (text : String)
    → get_phase (set_status o (record { phase = p; observed_generation = n; message = text })) ≡ p
unfolding get_phase set_status
status-phase (group g) p n text = refl
status-phase (organizational_unit g) p n text = refl
status-phase (user g) p n text = refl

pub pending≢ready : pending ≢ ready
unfolding is_ready
pending≢ready e = false≢true (ap is_ready e)

pub failed≢ready : failed ≢ ready
unfolding is_ready
failed≢ready e = false≢true (ap is_ready e)

pub unset≢ready : unset ≢ ready
unfolding is_ready
unset≢ready e = false≢true (ap is_ready e)

pub mark-not_ready :
    {L : Type 0} (o : LdapObject) (p : Phase) (text : String)
    → p ≢ ready
    → Preserves (λ s. s.1 ≢ ready) (write_status (cluster {L = L} ready) o p text)
unfolding write_status
mark-not_ready o p text h = record { at = λ s k e. h (sym (status-phase o p _ text) ∙ e) }

test_retry :
    reconcile (cluster pending) (client true) 8 request (3, unset) ≡ (ok retry, (3, pending))
unfolding reconcile ◌>>=◌ resolve_references is_ready get_phase set_status
test_retry = refl

reconcile-Settled_example :
    Settled (cluster {L = ℕ} pending) (client true) 8 request (3, unset) retry (3, pending)
reconcile-Settled_example =
    reconcile-Settled (cluster {L = ℕ} pending) (client true) 8 request (3, unset) (3, pending)
      retry test_retry
