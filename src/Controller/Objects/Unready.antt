-- ===== src/Controller/Objects/Unready.antt =====
-- The stored phase as the object reconciler leaves it where the client creates no entry
-- (internal/controller/ldapobject_controller.go).
use openldap_operator.Base.{ℕ, String, ◌≡◌, Bool, true, false, Option}
use openldap_operator.Go.{wrapf, on_err, ok, lift, ask, attempt}
use openldap_operator.Go.Calls.{on_err-value}
use openldap_operator.Go.Preserves.{
  Preserves, preserves_rules, Preserves->>=, Preserves->>=_value, Preserves-lift, Preserves-on_err,
  Preserves-ask, Preserves-attempt, Preserves-on_result,
}
use openldap_operator.Api.{Phase, pending, ready, failed, LdapDirectory, LdapObject, Object}
use openldap_operator.Mapper.{map_to_entry}
use openldap_operator.Ldap.{Entry}
use openldap_operator.Ldap.Interface.{LdapClient, BuildClient}
use openldap_operator.Controller.{NamespacedName, Kube}
use openldap_operator.Controller.Marks.{write_status, remove_finalizer, with_value}
use openldap_operator.Controller.Objects.{
  publish, write_entry, map_and_write, own, own_and_write, delete_stage, with_client, reconcile,
}
use openldap_operator.Controller.Objects.Lookups.{
  KubePreserves, get_distinguished_name-P, map_to_entry-P,
}
use openldap_operator.Controller.Objects.Stages.{give_up-P, patch-P}
use openldap_operator.Controller.Objects.Leading.{reconcile-P}

-- The client of a directory preserves `P`, and it never says that it created an entry.
pub record FindsEntries {S : Type 0} (build : BuildClient S) (P : S → Type 0) : Type 0 where
  pub builds : (d : LdapDirectory) → Preserves P (build d)
  pub writes :
      (d : LdapDirectory) (s : S) (c : LdapClient S) (e : Entry)
      → (build d s).0 ≡ ok c
      → Preserves P (c.create_or_update_entry e)
  pub deletes :
      (d : LdapDirectory) (s : S) (c : LdapClient S) (dn : String)
      → (build d s).0 ≡ ok c
      → Preserves P (c.delete_entry dn true)
  pub finds :
      (d : LdapDirectory) (s t : S) (c : LdapClient S) (e : Entry)
      → (build d s).0 ≡ ok c
      → ¬ ((c.create_or_update_entry e t).0 ≡ ok true)

module _ {S : Type 0} (k : Kube S) (build : BuildClient S) (fuel : ℕ) (P : S → Type 0)
    (kube : KubePreserves k P)
    (marks_pending : (o : LdapObject) → Preserves P (write_status k o pending ""))
    (marks_failed : (o : LdapObject) (text : String) → Preserves P (write_status k o failed text))
    (client : FindsEntries build P) where
  publish-P : (o : LdapObject) → Preserves P (publish k build fuel o false)
  unfolding publish
  publish-P o = search preserves_rules

  write_entry-P :
      (d : LdapDirectory) (s : S) (c : LdapClient S) (o : LdapObject) (e : Entry)
      → (build d s).0 ≡ ok c
      → Preserves P (write_entry k build fuel c o e)
  unfolding write_entry
  write_entry-P d s c o e h =
      Preserves-on_result (c.create_or_update_entry e) _ (publish k build fuel o)
        (client.writes d s c e h) (give_up-P k build fuel P kube marks_pending marks_failed o _ _)
        (λ t created e'. published t created e')
    where
      published :
          (t : S) (created : Bool)
          → (c.create_or_update_entry e t).0 ≡ ok created
          → Preserves P (publish k build fuel o created)
      published t false e' = publish-P o
      published t true e' = absurd (client.finds d s t c e h e')

  map_and_write-P :
      (d : LdapDirectory) (s : S) (c : LdapClient S) (dn : String) (o : LdapObject)
      → (build d s).0 ≡ ok c
      → Preserves P (map_and_write k build fuel c dn o)
  unfolding map_and_write
  map_and_write-P d s c dn o h =
      Preserves-on_result (map_to_entry k.reader dn o) _ (write_entry k build fuel c o)
        (map_to_entry-P k P kube dn o)
        (give_up-P k build fuel P kube marks_pending marks_failed o _ _)
        (λ t e e'. write_entry-P d s c o e h)

  own_and_write-P :
      (d : LdapDirectory) (s : S) (c : LdapClient S) (dn : String) (owner : Option Object)
      (o : LdapObject)
      → (build d s).0 ≡ ok c
      → Preserves P (own_and_write k build fuel c dn owner o)
  unfolding own_and_write
  own_and_write-P d s c dn owner o h =
      Preserves->>= (ask (k.create_or_patch o (own k build fuel owner))) _
        (Preserves-ask _ (kube.create_or_patch o (own k build fuel owner)))
        λ r.
          Preserves-on_result (lift (with_value r.0 r.1)) _ (map_and_write k build fuel c dn)
            (Preserves-lift _) (give_up-P k build fuel P kube marks_pending marks_failed r.0 _ _)
            (λ t o' e. map_and_write-P d s c dn o' h)

  delete_stage-P :
      (d : LdapDirectory) (s : S) (c : LdapClient S) (dn : String) (o : LdapObject)
      → (build d s).0 ≡ ok c
      → Preserves P (delete_stage k build fuel c dn o)
  unfolding delete_stage remove_finalizer
  delete_stage-P d s c dn o h =
      Preserves->>= (attempt (c.delete_entry dn true)) _
        (Preserves-attempt _ (client.deletes d s c dn h))
        λ r. search (patch-P k build fuel P kube marks_pending marks_failed, preserves_rules)

  with_client-P :
      (o : LdapObject) (d : LdapDirectory) (parent : Option Object)
      → Preserves P (with_client k build fuel o d parent)
  unfolding with_client on_err
  with_client-P o d parent =
      Preserves->>=_value (on_err (wrapf "failed to create directory client") (build d)) _
        (Preserves-on_err _ (build d) (client.builds d))
        λ s c e. search (
          get_distinguished_name-P k P kube,
          delete_stage-P d s c _ _ (on_err-value _ (build d) e),
          own_and_write-P d s c _ _ _ (on_err-value _ (build d) e),
          preserves_rules,
        )

-- Suppose that no call on the cluster makes the stored phase of an object ready, but for the write
-- of that phase, that the client of a directory does not either, and that it never says that it
-- created an entry, as it does not where each entry is there already. Then `Reconcile` leaves an
-- object that is not ready not ready, for every request: only a creation makes an object ready.
pub reconcile-unready :
    {S : Type 0} (k : Kube S) (build : BuildClient S) (fuel : ℕ) (phase : S → Phase)
    → KubePreserves k (λ s. ¬ (phase s ≡ ready))
    → ((o : LdapObject) → Preserves (λ s. ¬ (phase s ≡ ready)) (write_status k o pending ""))
    → ((o : LdapObject) (text : String)
        → Preserves (λ s. ¬ (phase s ≡ ready)) (write_status k o failed text))
    → FindsEntries build (λ s. ¬ (phase s ≡ ready))
    → (req : NamespacedName) (s : S) → ¬ (phase s ≡ ready)
    → ¬ (phase (reconcile k build fuel req s).1 ≡ ready)
reconcile-unready k build fuel phase kube marks_pending marks_failed client req s =
    (reconcile-P k build fuel (λ t. ¬ (phase t ≡ ready)) kube marks_pending marks_failed
        (λ o d parent resolved is.
          with_client-P k build fuel (λ t. ¬ (phase t ≡ ready)) kube marks_pending marks_failed
            client o d parent)
        req).at
      s
