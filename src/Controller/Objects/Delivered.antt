-- ===== src/Controller/Objects/Delivered.antt =====
-- The object reconciler (internal/controller/ldapobject_controller.go) with the client that
-- internal/ldap/client_builder.go makes: what the directory holds once an object is ready.
use openldap_operator.Base.{ℕ, String, ◌≡◌, refl, sym, ap, subst, ◌⊎◌, inl, inr, Bool, true}
use openldap_operator.Go.{Error, Result, ok, err, panic, unfinished, M, attempt}
use openldap_operator.Go.Preserves.{Preserves, preserves_rules, Preserves->>=, Preserves-attempt}
use openldap_operator.Go.Leads.{Leads, Leads-weaken}
use openldap_operator.Go.Calls.{on_result-ok, on_result-err, on_result-panic, on_result-unfinished}
use openldap_operator.Api.{pending, ready, failed, LdapDirectory, LdapObject}
use openldap_operator.Ldap.{Entry}
use openldap_operator.Ldap.Goldap.{Goldap}
use openldap_operator.Ldap.Interface.{LdapClient, BuildClient}
use openldap_operator.Ldap.Fake.{create_or_update_entry}
use openldap_operator.Controller.{NamespacedName, EventType, Outcome, Kube}
use openldap_operator.Controller.Marks.{write_status, mark_ready, remove_finalizer}
use openldap_operator.Controller.Objects.{publish, give_up, write_entry, delete_stage, reconcile}
use openldap_operator.Controller.Objects.Lookups.{KubePreserves}
use openldap_operator.Controller.Objects.Stages.{give_up-P, patch-P}
use openldap_operator.Controller.Objects.Calls.{IsJustified}
use openldap_operator.Controller.Objects.Justified.{reconcile-Justified}

-- A client of a directory keeps `P`, and a write of an entry that succeeds leaves the entry there.
pub record Delivers {S : Type 0} (build : BuildClient S) (P : S → Type 0) (D : Entry → S → Type 0)
    : Type 0 where
  pub builds : (d : LdapDirectory) → Preserves P (build d)
  pub writes :
      (d : LdapDirectory) (s : S) (c : LdapClient S) (e : Entry)
      → (build d s).0 ≡ ok c
      → Preserves P (c.create_or_update_entry e)
  pub deletes :
      (d : LdapDirectory) (s : S) (c : LdapClient S) (dn : String)
      → (build d s).0 ≡ ok c
      → Preserves P (c.delete_entry dn true)
  pub delivers :
      (d : LdapDirectory) (s : S) (c : LdapClient S) (e : Entry)
      → (build d s).0 ≡ ok c
      → (t u : S) (created : Bool) → c.create_or_update_entry e t ≡ (ok created, u)
      → D e u

module _ {S : Type 0} (k : Kube S) (build : BuildClient S) (fuel : ℕ) (P : S → Type 0)
    (D : Entry → S → Type 0) (kube : KubePreserves k P)
    (marks_pending : (o : LdapObject) → Preserves P (write_status k o pending ""))
    (marks_failed : (o : LdapObject) (text : String) → Preserves P (write_status k o failed text))
    (marks_ready : (e : Entry) (o : LdapObject) → Preserves (D e) (write_status k o ready ""))
    (events : (e : Entry) (o : LdapObject) (t : EventType) (r m : String) (s : S)
      → D e s
      → D e (k.event o t r m s))
    (client : Delivers build P D) (req : NamespacedName) where
  -- The property still holds, or a justified entry was delivered.
  abbrev pub Delivered : S → Type 0
  Delivered s =
      P s ⊎ ((e : Entry) × IsJustified k build fuel req (create_or_update_entry e) × D e s)

  publish-D :
      (e : Entry) (o : LdapObject) (created : Bool)
      → Preserves (D e) (publish k build fuel o created)
  unfolding publish mark_ready
  publish-D e o created = search (marks_ready, events, preserves_rules)

  write_entry-Delivered :
      (d : LdapDirectory) (s : S) (c : LdapClient S) (o : LdapObject) (e : Entry)
      → (build d s).0 ≡ ok c
      → IsJustified k build fuel req (create_or_update_entry e)
      → Leads P Delivered (write_entry k build fuel c o e)
  unfolding write_entry
  write_entry-Delivered d s c o e h j = record {
    at = λ t p. go t ((client.writes d s c e h).at t p) (c.create_or_update_entry e t) refl;
  }
    where
      handle : Error → M S Error Outcome
      handle =
          give_up k build fuel o "Failed to create or update ldap entry"
            "failed to create or update ldap entry"

      go :
          (t : S)
          → P (c.create_or_update_entry e t).1
          → (r : Result Error Bool × S) → c.create_or_update_entry e t ≡ r
          → Delivered (write_entry k build fuel c o e t).1
      go t p (ok created, u) i =
          subst (λ r. Delivered r.1)
            (sym (on_result-ok (c.create_or_update_entry e) handle (publish k build fuel o) i))
            (inr (e, j, (publish-D e o created).at u (client.delivers d s c e h t u created i)))
      go t p (err x, u) i =
          subst (λ r. Delivered r.1)
            (sym (on_result-err (c.create_or_update_entry e) handle (publish k build fuel o) i))
            (inl (
              (give_up-P k build fuel P kube marks_pending marks_failed o _ _ x).at u
                (subst P (ap (λ r. r.1) i) p)))
      go t p (panic m, u) i =
          subst (λ r. Delivered r.1)
            (sym (on_result-panic (c.create_or_update_entry e) handle (publish k build fuel o) i))
            (inl (subst P (ap (λ r. r.1) i) p))
      go t p (unfinished, u) i =
          subst (λ r. Delivered r.1)
            (sym
              (on_result-unfinished (c.create_or_update_entry e) handle (publish k build fuel o) i))
            (inl (subst P (ap (λ r. r.1) i) p))

  delete_stage-Delivered :
      (d : LdapDirectory) (s : S) (c : LdapClient S) (dn : String) (o : LdapObject)
      → (build d s).0 ≡ ok c
      → Leads P Delivered (delete_stage k build fuel c dn o)
  unfolding delete_stage remove_finalizer
  delete_stage-Delivered d s c dn o h =
      Leads-weaken (λ t p. inl p) _
        (Preserves->>= (attempt (c.delete_entry dn true)) _
          (Preserves-attempt _ (client.deletes d s c dn h))
          λ r. search (patch-P k build fuel P kube marks_pending marks_failed, preserves_rules))

  pub reconcile-Delivered : Leads P Delivered (reconcile k build fuel req)
  reconcile-Delivered =
      reconcile-Justified k build fuel P Delivered (λ s p. inl p) kube marks_pending marks_failed
        req client.builds write_entry-Delivered
        (λ d s c dn o h j. delete_stage-Delivered d s c dn o h)
