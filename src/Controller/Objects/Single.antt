-- ===== src/Controller/Objects/Single.antt =====
-- What the object reconciler (internal/controller/ldapobject_controller.go) asks of the LDAP client.
use openldap_operator.Base.{ℕ, String, ◌≡◌, refl, ap, ◌∙◌, inl, inr, Bool, true, List, ◌∷◌}
use openldap_operator.Go.{ok, attempt}
use openldap_operator.Go.Preserves.{Preserves, preserves_rules}
use openldap_operator.Go.Leads.{Leads, Leads->>=_first, Leads-on_result_first, Leads-attempt}
use openldap_operator.Api.{pending, ready, failed, LdapDirectory, LdapObject}
use openldap_operator.Ldap.{Entry}
use openldap_operator.Ldap.Interface.{LdapClient, BuildClient}
use openldap_operator.Ldap.Fake.Logs.{Records}
use openldap_operator.Ldap.Fake.{Call, delete_entry, create_or_update_entry}
use openldap_operator.Controller.{NamespacedName, Kube}
use openldap_operator.Controller.Marks.{write_status, mark_ready, remove_finalizer}
use openldap_operator.Controller.Objects.{publish, write_entry, delete_stage, reconcile}
use openldap_operator.Controller.Objects.Lookups.{KubePreserves}
use openldap_operator.Controller.Objects.Stages.{give_up-P, patch-P}
use openldap_operator.Controller.Objects.Gate.{LeavesAlone}
use openldap_operator.Controller.Objects.Views.{
  view-KubePreserves, pending-marks, failed-marks, ready-marks,
}
use openldap_operator.Controller.Objects.Justified.{reconcile-Justified}
use openldap_operator.Controller.Objects.Calls.{IsJustified, AtMostOne}

module _ {S : Type 0} (k : Kube S) (build : BuildClient S) (fuel : ℕ) (calls : S → List Call)
    (alone : LeavesAlone k calls)
    (ready_marks : (x : List Call) (o : LdapObject)
      → Preserves (λ s. calls s ≡ x) (write_status k o ready ""))
    (records : Records build calls) (req : NamespacedName) (before : List Call) where
  abbrev Before : S → Type 0
  Before s = calls s ≡ before

  abbrev After : S → Type 0
  After s = AtMostOne k build fuel req before (calls s)

  kube : KubePreserves k After
  kube = view-KubePreserves k calls alone ready_marks (AtMostOne k build fuel req before)

  pendings : (o : LdapObject) → Preserves After (write_status k o pending "")
  pendings = pending-marks k calls alone ready_marks (AtMostOne k build fuel req before)

  faileds : (o : LdapObject) (text : String) → Preserves After (write_status k o failed text)
  faileds = failed-marks k calls alone ready_marks (AtMostOne k build fuel req before)

  readys : (o : LdapObject) → Preserves After (write_status k o ready "")
  readys = ready-marks k calls alone ready_marks (AtMostOne k build fuel req before)

  publish-After :
      (o : LdapObject) (created : Bool) → Preserves After (publish k build fuel o created)
  unfolding publish mark_ready
  publish-After o created = search (readys, kube.event, preserves_rules)

  write_entry-Leads :
      (d : LdapDirectory) (s : S) (c : LdapClient S) (o : LdapObject) (e : Entry)
      → (build d s).0 ≡ ok c
      → IsJustified k build fuel req (create_or_update_entry e)
      → Leads Before After (write_entry k build fuel c o e)
  unfolding write_entry
  write_entry-Leads d s c o e h j =
      Leads-on_result_first (c.create_or_update_entry e) _ (publish k build fuel o)
        (record {
          at = λ t p. inr (
            create_or_update_entry e,
            records.writes d s c h e t ∙ ap (λ l. create_or_update_entry e ∷ l) p,
            j,
          );
        })
        (give_up-P k build fuel After kube pendings faileds o _ _) (publish-After o)

  delete_stage-Leads :
      (d : LdapDirectory) (s : S) (c : LdapClient S) (dn : String) (o : LdapObject)
      → (build d s).0 ≡ ok c
      → IsJustified k build fuel req (delete_entry dn true)
      → Leads Before After (delete_stage k build fuel c dn o)
  unfolding delete_stage remove_finalizer
  delete_stage-Leads d s c dn o h j =
      Leads->>=_first (attempt (c.delete_entry dn true)) _
        (Leads-attempt _ (record {
          at = λ t p. inr (
            delete_entry dn true,
            records.deletes d s c h dn true t ∙ ap (λ l. delete_entry dn true ∷ l) p,
            j,
          );
        }))
        λ r. search (patch-P k build fuel After kube pendings faileds, preserves_rules)

-- Suppose that the clients that are built log their calls, and that building a client and the calls on
-- the cluster leave the log alone. Then one `Reconcile` adds at most one call to the log, for every
-- request and in every state, and only for the object that the cluster gives for the request, whose
-- directory, as the lookup of the reference in its specification yielded it, is ready, and whose
-- parent, where a lookup yielded one, is a ready object. It is a cascading DeleteEntry at the
-- distinguished name of the object if this is being deleted, and else a CreateOrUpdateEntry of the
-- entry to which the object is mapped at that name, after it was given its owner.
pub reconcile-AtMostOne :
    {S : Type 0} (k : Kube S) (build : BuildClient S) (fuel : ℕ) (calls : S → List Call)
    → LeavesAlone k calls
    → ((x : List Call) (o : LdapObject) → Preserves (λ s. calls s ≡ x) (write_status k o ready ""))
    → Records build calls
    → (req : NamespacedName) (s : S)
    → AtMostOne k build fuel req (calls s) (calls (reconcile k build fuel req s).1)
reconcile-AtMostOne k build fuel calls alone ready_marks records req s =
    (reconcile-Justified k build fuel (λ t. calls t ≡ calls s)
        (λ t. AtMostOne k build fuel req (calls s) (calls t)) (λ t p. inl p) (alone.calls (calls s))
        (alone.pending_marks (calls s)) (alone.failed_marks (calls s)) req
        (λ d. record { at = λ t p. (records.builds d).same t ∙ p })
        (write_entry-Leads k build fuel calls alone ready_marks records req (calls s))
        (delete_stage-Leads k build fuel calls alone ready_marks records req (calls s))).at
      s refl
