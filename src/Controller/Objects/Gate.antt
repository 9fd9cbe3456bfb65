-- ===== src/Controller/Objects/Gate.antt =====
-- The LDAP server as the object reconciler leaves it while no directory is ready
-- (internal/controller/ldapobject_controller.go).
use openldap_operator.Base.{ℕ, String, ◌≡◌, Bool, true, false, refl}
use openldap_operator.Go.Preserves.{Preserves}
use openldap_operator.Api.{pending, failed, LdapDirectory, LdapObject}
use openldap_operator.Ldap.Interface.{BuildClient}
use openldap_operator.Controller.{NamespacedName, Kube}
use openldap_operator.Controller.Marks.{is_ready, write_status}
use openldap_operator.Controller.Objects.{reconcile}
use openldap_operator.Controller.Objects.Leading.{IsResolved, reconcile-P}
use openldap_operator.Controller.Objects.Lookups.{KubePreserves}

-- The view that a client of the cluster leaves alone.
pub record LeavesAlone {S L : Type 0} (k : Kube S) (server : S → L) : Type 0 where
  pub calls : (x : L) → KubePreserves k (λ s. server s ≡ x)
  pub pending_marks :
      (x : L) (o : LdapObject) → Preserves (λ s. server s ≡ x) (write_status k o pending "")
  pub failed_marks :
      (x : L) (o : LdapObject) (text : String)
      → Preserves (λ s. server s ≡ x) (write_status k o failed text)

module _ {S L : Type 0} (k : Kube S) (build : BuildClient S) (fuel : ℕ) (server : S → L) where
  -- Suppose that the cluster's calls do not change the LDAP server, and that no lookup of
  -- an object's directory yields one that is ready. Then `Reconcile` does not change the LDAP server either, whatever the
  -- client of a directory would do, for every request and in every state.
  pub reconcile-not_ready :
      LeavesAlone k server
      → ((o : LdapObject) (d : LdapDirectory) → IsResolved k o d → is_ready d.status.phase ≡ false)
      → (req : NamespacedName) (s : S) → server (reconcile k build fuel req s).1 ≡ server s
  reconcile-not_ready alone gate req s =
      (reconcile-P k build fuel (λ t. server t ≡ server s) (alone.calls _) (alone.pending_marks _)
          (alone.failed_marks _) (λ o d parent resolved is. absurd (bad is (gate o d resolved)))
          req).at
        s refl
    where
      bad : {b : Bool} → b ≡ true → b ≡ false → ⊥
      bad h k = cc
