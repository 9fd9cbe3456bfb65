-- ===== src/Controller/Objects/Justified.antt =====
-- The object reconciler (internal/controller/ldapobject_controller.go) up to the call of its client.
use openldap_operator.Base.{ℕ, String, ◌≡◌, refl, ◌∙◌, true, not, Option}
use openldap_operator.Go.{Error, wrapf, Result, ok, err, panic, unfinished, lift, ask, on_err}
use openldap_operator.Go.Calls.{on_err-value}
use openldap_operator.Go.Preserves.{Preserves, Preserves-lift, Preserves-on_err}
use openldap_operator.Go.Leads.{Leads, Leads->>=_from, Leads-if, Leads-on_result}
use openldap_operator.Api.{
  pending, failed, is_zero, LdapDirectory, LdapObject, ldap_object, Object, get_meta,
}
use openldap_operator.Api.Naming.{get_distinguished_name}
use openldap_operator.Mapper.{map_to_entry}
use openldap_operator.Ldap.{Entry}
use openldap_operator.Ldap.Interface.{LdapClient, BuildClient}
use openldap_operator.Ldap.Fake.{Call, delete_entry, create_or_update_entry}
use openldap_operator.Controller.{NamespacedName, Kube}
use openldap_operator.Controller.Marks.{is_ready, write_status, with_value}
use openldap_operator.Controller.Objects.{
  write_entry, map_and_write, own, own_and_write, delete_stage, owner_of, with_client, reconcile,
}
use openldap_operator.Controller.Objects.Lookups.{
  KubePreserves, get_distinguished_name-P, map_to_entry-P,
}
use openldap_operator.Controller.Objects.Stages.{give_up-P}
use openldap_operator.Controller.Objects.Leading.{
  IsRequested, IsResolved, IsParent, IsReadyParent, ok-inj, true_of_not, false_of_not,
  reconcile-Leads,
}
use openldap_operator.Controller.Objects.Calls.{AskedFor, IsJustified}

with_value-eq-ok :
    {A : Type 0} (a : A) (r : Result Error (Unit {0})) {b : A}
    → with_value a r ≡ ok b
    → ◌≡◌ {A = A × Result Error (Unit {0})} (a, r) (b, ok tt)
unfolding with_value
with_value-eq-ok a (ok u) e = cc
with_value-eq-ok a (err x) e = absurd (cc e)
with_value-eq-ok a (panic p) e = absurd (cc e)
with_value-eq-ok a unfinished e = absurd (cc e)

module _ {S : Type 0} (k : Kube S) (build : BuildClient S) (fuel : ℕ) (P Q : S → Type 0)
    (weaken : (s : S) → P s → Q s) (kube : KubePreserves k P)
    (marks_pending : (o : LdapObject) → Preserves P (write_status k o pending ""))
    (marks_failed : (o : LdapObject) (text : String) → Preserves P (write_status k o failed text))
    (req : NamespacedName) (builds : (d : LdapDirectory) → Preserves P (build d))
    (writing : (d : LdapDirectory) (s : S) (c : LdapClient S) (o : LdapObject) (e : Entry)
      → (build d s).0 ≡ ok c
      → IsJustified k build fuel req (create_or_update_entry e)
      → Leads P Q (write_entry k build fuel c o e))
    (deleting : (d : LdapDirectory) (s : S) (c : LdapClient S) (dn : String) (o : LdapObject)
      → (build d s).0 ≡ ok c
      → IsJustified k build fuel req (delete_entry dn true)
      → Leads P Q (delete_stage k build fuel c dn o)) where
  map_and_write-Leads :
      (d : LdapDirectory) (s : S) (c : LdapClient S) (dn : String) (o : LdapObject)
      → (build d s).0 ≡ ok c
      → ((e : Entry) (t : S)
          → (map_to_entry k.reader dn o t).0 ≡ ok e
          → IsJustified k build fuel req (create_or_update_entry e))
      → Leads P Q (map_and_write k build fuel c dn o)
  unfolding map_and_write
  map_and_write-Leads d s c dn o h j =
      Leads-on_result weaken (map_to_entry k.reader dn o) _ (write_entry k build fuel c o)
        (map_to_entry-P k P kube dn o)
        (give_up-P k build fuel P kube marks_pending marks_failed o _ _)
        (λ t e e'. writing d s c o e h (j e t e'))

  own_and_write-Leads :
      (d : LdapDirectory) (s : S) (c : LdapClient S) (dn : String) (owner : Option Object)
      (o : LdapObject)
      → (build d s).0 ≡ ok c
      → ((e : Entry) (o' : LdapObject) (u t : S)
          → (k.create_or_patch o (own k build fuel owner) u).0 ≡ (o', ok tt)
          → (map_to_entry k.reader dn o' t).0 ≡ ok e
          → IsJustified k build fuel req (create_or_update_entry e))
      → Leads P Q (own_and_write k build fuel c dn owner o)
  unfolding own_and_write ask lift
  own_and_write-Leads d s c dn owner o h j =
      Leads->>=_from weaken (ask (k.create_or_patch o (own k build fuel owner))) _
        (record { at = kube.create_or_patch o (own k build fuel owner) })
        λ u p r e.
          Leads-on_result weaken (lift (with_value r.0 r.1)) _ (map_and_write k build fuel c dn)
            (Preserves-lift _) (give_up-P k build fuel P kube marks_pending marks_failed r.0 _ _)
            (λ t o' e'.
              map_and_write-Leads d s c dn o' h
                λ x t' m. j x o' u t' (ok-inj e ∙ with_value-eq-ok r.0 r.1 e') m)

  with_client-Leads :
      (o : LdapObject) (d : LdapDirectory) (parent : Option Object)
      → IsRequested k build fuel req o
      → IsResolved k o d
      → is_ready d.status.phase ≡ true
      → IsParent k o parent
      → IsReadyParent parent
      → Leads P Q (with_client k build fuel o d parent)
  unfolding with_client
  with_client-Leads o d parent asked r h i j =
      Leads->>=_from weaken (on_err (wrapf "failed to create directory client") (build d)) _
        (Preserves-on_err _ (build d) (builds d))
        λ s p c e.
          Leads->>=_from weaken
            (on_err (wrapf "failed to get distinguished name")
              (get_distinguished_name k.reader fuel (ldap_object o)))
            _ (Preserves-on_err _ _ (get_distinguished_name-P k P kube fuel (ldap_object o)))
            λ t q dn e'.
              Leads-if weaken (not (is_zero (get_meta o).deletion_timestamp)) _ _
                (λ gone. deleting d s c dn o (on_err-value _ (build d) e) (
                  justified dn t (on_err-value _ _ e') (delete_entry dn true)
                    (false_of_not _ gone, refl, refl)))
                (λ kept.
                  own_and_write-Leads d s c dn _ o (on_err-value _ (build d) e)
                    λ x o' u w owned mapped.
                      justified dn t (on_err-value _ _ e') (create_or_update_entry x)
                        (true_of_not _ kept, o', u, w, owned, mapped))
    where
      justified :
          (dn : String) (t : S)
          → (get_distinguished_name k.reader fuel (ldap_object o) t).0 ≡ ok dn
          → (x : Call) → AskedFor k build fuel o (owner_of k build fuel o d parent) dn x
          → IsJustified k build fuel req x
      justified dn t e x a = record {
        obj = o;
        dir = d;
        parent = parent;
        dn = dn;
        world = t;
        requested = asked;
        dir_resolved = r;
        dir_ready = h;
        parent_resolved = i;
        parent_ready = j;
        named_so = e;
        asked_for = a;
      }

  -- What the calls on the cluster and the building of a client keep holds up to the stage that asks the
  -- client, for a justified call, and what this stage leads to holds after `Reconcile`.
  pub reconcile-Justified : Leads P Q (reconcile k build fuel req)
  reconcile-Justified =
      reconcile-Leads k build fuel P Q weaken kube marks_pending marks_failed req with_client-Leads
