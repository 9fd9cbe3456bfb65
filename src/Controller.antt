-- ===== src/Controller.antt =====
-- Package controller (internal/controller): what the reconcilers use of the cluster, and what they
-- share.
pub mod Marks
pub mod Objects
pub mod Directories
use openldap_operator.Base.{ℕ, String, Bool}
use openldap_operator.Go.{Fault, Error, Result, M}
use openldap_operator.Api.{LdapObject, Object, Reader}

-- `types.NamespacedName`
pub record NamespacedName : Type 0 where
  pub namespace : String
  pub name : String

-- `ctrl.Result`, with the time until the next attempt in seconds; none is asked for at 0.
pub record Outcome : Type 0 where
  pub requeue_after : ℕ

-- `corev1.EventTypeNormal` and `corev1.EventTypeWarning`
pub data EventType : Type 0 where
  normal warning : EventType

-- `FinalizerName`
abbrev pub finalizer_name : String
finalizer_name = "ldap.gpu-ninja.com/finalizer"

-- `reconcileRetryInterval`
abbrev pub reconcile_retry_interval : ℕ
reconcile_retry_interval = 5

-- The calls of the object reconciler on the cluster, over a world `S`: `client.Client` and
-- controllerutil, the `updater` of operator-utils, and the event recorder. `CreateOrPatch` reads
-- the object anew, lets the given function change it, and writes it back; it returns what the
-- object in memory is then, whether or not it failed. `UpdateStatus` does so for the status.
pub record Kube (S : Type 0) : Type 0 where
  pub reader : Reader S
  pub get : NamespacedName → M S Fault LdapObject
  pub create_or_patch :
      LdapObject
      → (LdapObject → Result Error LdapObject)
      → S
      → (LdapObject × Result Error (Unit {0})) × S
  pub update_status : NamespacedName → LdapObject → (LdapObject → LdapObject) → M S Fault (Unit {0})
  pub event : LdapObject → EventType → String → String → S → S
  pub contains_finalizer : LdapObject → String → Bool
  pub add_finalizer : LdapObject → String → LdapObject
  pub remove_finalizer : LdapObject → String → LdapObject
  pub set_controller_reference : Object → LdapObject → Result Fault LdapObject
