-- ===== src/Controller/Objects/Stages.antt =====
-- What the object reconciler preserves, from what its calls preserve.
use openldap_operator.Base.{ℕ, String}
use openldap_operator.Go.{Fault, Error, Result}
use openldap_operator.Go.Preserves.{Preserves, preserves_rules}
use openldap_operator.Api.{pending, failed, LdapObject}
use openldap_operator.Ldap.Interface.{BuildClient}
use openldap_operator.Controller.{Kube}
use openldap_operator.Controller.Marks.{
  write_status, mark_pending, mark_failed, fail_with, wait_for, patch, add_finalizer,
  remove_finalizer,
}
use openldap_operator.Controller.Objects.{
  give_up, bad_parent, unresolved, references_failed, ensure_finalizer,
}
use openldap_operator.Controller.Objects.Lookups.{KubePreserves}

module _ {S : Type 0} (k : Kube S) (build : BuildClient S) (fuel : ℕ) (P : S → Type 0)
    (kube : KubePreserves k P)
    (marks_pending : (o : LdapObject) → Preserves P (write_status k o pending ""))
    (marks_failed : (o : LdapObject) (text : String)
      → Preserves P (write_status k o failed text)) where
  pub mark_failed-P : (o : LdapObject) (e : Error) → Preserves P (mark_failed k o e)
  unfolding mark_failed
  mark_failed-P o e = search (marks_failed, preserves_rules)

  pub fail_with-P : (o : LdapObject) (a b : String) (e : Error) → Preserves P (fail_with k o a b e)
  unfolding fail_with
  fail_with-P o a b e = search (mark_failed-P, kube.event, preserves_rules)

  pub give_up-P :
      (o : LdapObject) (a b : String) (e : Error) → Preserves P (give_up k build fuel o a b e)
  unfolding give_up
  give_up-P o a b e = search (fail_with-P, preserves_rules)

  pub wait_for-P : (o : LdapObject) (text : String) → Preserves P (wait_for k o text)
  unfolding wait_for mark_pending
  wait_for-P o text = search (marks_pending, kube.event, preserves_rules)

  pub patch-P :
      (f : Error → Error) (o : LdapObject) (change : LdapObject → Result Error LdapObject)
      → Preserves P (patch k f o change)
  unfolding patch
  patch-P f o change = search (kube.create_or_patch, preserves_rules)

  pub bad_parent-P : (o : LdapObject) → Preserves P (bad_parent k build fuel o)
  unfolding bad_parent
  bad_parent-P o = search (mark_failed-P, kube.event, preserves_rules)

  pub references_failed-P :
      (o : LdapObject) (f : Fault) → Preserves P (references_failed k build fuel o f)
  unfolding references_failed
  references_failed-P o f = search (fail_with-P, preserves_rules)

  pub unresolved-P : (o : LdapObject) → Preserves P (unresolved k build fuel o)
  unfolding unresolved remove_finalizer
  unresolved-P o = search (patch-P, wait_for-P, preserves_rules)

  pub ensure_finalizer-P : (o : LdapObject) → Preserves P (ensure_finalizer k build fuel o)
  unfolding ensure_finalizer add_finalizer
  ensure_finalizer-P o = search (patch-P, preserves_rules)
