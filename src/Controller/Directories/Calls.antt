-- ===== src/Controller/Directories/Calls.antt =====
-- What the reconciler of directories uses of the cluster, over a world `S`: `client.Client` and
-- controllerutil, the `updater` and `password` packages of operator-utils, `meta.SetStatusCondition`
-- of apimachinery, and the event recorder. `CreateOrPatch` is as in `Controller.Kube`.
use openldap_operator.Base.{ℕ, String, Bool, List}
use openldap_operator.Go.{Fault, Error, Result, M}
use openldap_operator.Api.{Condition, LdapDirectory, Secret, Reader}
use openldap_operator.Controller.{NamespacedName, EventType}
use openldap_operator.Controller.Directories.Resources.{StatefulSet, Service, StatefulSetState}

pub record DirectoryKube (S : Type 0) : Type 0 where
  pub reader : Reader S
  pub get : NamespacedName → M S Fault LdapDirectory
  pub create_or_patch :
      LdapDirectory
      → (LdapDirectory → Result Error LdapDirectory)
      → S
      → (LdapDirectory × Result Error (Unit {0})) × S
  pub update_status :
      NamespacedName → LdapDirectory → (LdapDirectory → LdapDirectory) → M S Fault (Unit {0})
  pub set_status_condition : List Condition → Condition → List Condition
  pub event : LdapDirectory → EventType → String → String → S → S
  pub contains_finalizer : LdapDirectory → String → Bool
  pub add_finalizer : LdapDirectory → String → LdapDirectory
  pub remove_finalizer : LdapDirectory → String → LdapDirectory
  pub get_secret : NamespacedName → M S Fault Secret
  pub generate_password : ℕ → M S Fault String
  pub set_secret_owner : LdapDirectory → Secret → Result Fault Secret
  pub create_secret : Secret → M S Fault (Unit {0})
  pub set_owner_reference : LdapDirectory → StatefulSet → Result Fault StatefulSet
  pub set_controller_reference : LdapDirectory → Service → Result Fault Service
  pub apply_stateful_set : StatefulSet → M S Fault (Unit {0})
  pub apply_service : Service → M S Fault (Unit {0})
  pub get_stateful_set : NamespacedName → M S Fault StatefulSetState
