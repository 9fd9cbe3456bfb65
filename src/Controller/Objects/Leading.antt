-- ===== src/Controller/Objects/Leading.antt =====
-- Where the object reconciler goes on once a directory and a parent were found to be ready, and what
-- its calls preserve before that.
use openldap_operator.Base.{
  ℕ, String, ◌≡◌, refl, ap, ◌∙◌, ◌⊎◌, inl, inr, Bool, true, false, not, Option, none, some, arith,
}
use openldap_operator.Go.{
  Fault, Error, fault, Result, ok, err, panic, unfinished, lift, ask, attempt,
}
use openldap_operator.Go.Preserves.{
  Preserves, preserves_rules, Preserves-ask, Preserves-attempt, Preserves-lift,
}
use openldap_operator.Api.{
  pending, failed, LdapDirectory, LdapObject, directory, Object, named, Resolved, ObjectReference,
  LocalObjectReference, resolve_directory, get_ldap_object_spec, ldap_object, get_phase,
}
use openldap_operator.Ldap.Interface.{BuildClient}
use openldap_operator.Controller.{NamespacedName, Kube}
use openldap_operator.Controller.Marks.{
  is_ready, as_directory, as_ldap_object, write_status, wait_for,
}
use openldap_operator.Controller.Objects.{
  give_up, with_client, bad_parent, parent_stage, resolve_parent, with_directory, find_directory,
  unresolved, references_failed, check_references, ensure_finalizer, got, reconcile,
}
use openldap_operator.Controller.Objects.Lookups.{KubePreserves, resolve_references-P}
use openldap_operator.Controller.Objects
use openldap_operator.Go.Leads.{
  Leads, Leads-weaken, Leads->>=_from, Leads-if, Leads-unless, Leads-of_Preserves,
  Preserves-of_Leads,
}
use openldap_operator.Controller.Objects.Stages.{
  give_up-P, wait_for-P, bad_parent-P, references_failed-P, unresolved-P, ensure_finalizer-P,
}

pub ok-inj : {E A : Type 0} {x y : A} → ◌≡◌ {A = Result E A} (ok x) (ok y) → x ≡ y
ok-inj e = cc

pub true_of_not : (b : Bool) → not b ≡ false → b ≡ true
true_of_not true e = refl
true_of_not false e = cc

pub false_of_not : (b : Bool) → not b ≡ true → b ≡ false
false_of_not true e = cc
false_of_not false e = refl

as_directory-eq-ok :
    (o : Option Object) {d : LdapDirectory} → as_directory o ≡ ok d → o ≡ some (named (directory d))
unfolding as_directory
as_directory-eq-ok o h = ground arith

-- The directory that a lookup of the object's own reference to a directory yields, by the name that
-- its spec gives, for this object.
pub record IsResolved {S : Type 0} (k : Kube S) (o : LdapObject) (d : LdapDirectory) : Type 0 where
  pub world : S
  pub yields :
      (k.reader.resolve_object
        (record { name = (get_ldap_object_spec o).directory_ref.name; kind = "LDAPDirectory" })
        (named (ldap_object o))
        world).0.object
      ≡ some (named (directory d))

-- The object is the one that the cluster gives for the request, with the finalizer.
pub record IsRequested {S : Type 0} (k : Kube S) (build : BuildClient S) (fuel : ℕ)
    (req : NamespacedName) (o : LdapObject) : Type 0 where
  pub stored : LdapObject
  pub world : S
  pub got : (k.get req world).0 ≡ ok stored
  pub next : S
  pub ensured : (ensure_finalizer k build fuel stored next).0 ≡ ok o

-- What the reply to a parent reference gives: no parent where there is no reference, else the object
-- of the reply.
pub record IsParent {S : Type 0} (k : Kube S) (o : LdapObject) (parent : Option Object)
    : Type 0 where
  pub reference :
      ((get_ldap_object_spec o).parent_ref ≡ none) × (parent ≡ none)
      ⊎ (ref : LocalObjectReference) × (world : S) × ((get_ldap_object_spec o).parent_ref
          ≡ some ref)
        × ((k.reader.resolve_local_object ref (named (ldap_object o)) world).0.object ≡ parent)

-- The parent, if there is one, is an object that is ready.
abbrev pub IsReadyParent : Option Object → Type 0
IsReadyParent none = Unit
IsReadyParent (some p) =
    (q : LdapObject) × (as_ldap_object p ≡ some q) × (is_ready (get_phase q) ≡ true)

module _ {S : Type 0} (k : Kube S) (build : BuildClient S) (fuel : ℕ) (P Q : S → Type 0)
    (weaken : (s : S) → P s → Q s) (kube : KubePreserves k P)
    (marks_pending : (o : LdapObject) → Preserves P (write_status k o pending ""))
    (marks_failed : (o : LdapObject) (text : String) → Preserves P (write_status k o failed text))
    (req : NamespacedName)
    (ready_stage : (o : LdapObject) (d : LdapDirectory) (parent : Option Object)
      → IsRequested k build fuel req o
      → IsResolved k o d
      → is_ready d.status.phase ≡ true
      → IsParent k o parent
      → IsReadyParent parent
      → Leads P Q (with_client k build fuel o d parent)) where
  abbrev IsFound : LdapObject → LdapDirectory → Type 0
  IsFound o d = IsRequested k build fuel req o × IsResolved k o d

  parent_stage-Leads :
      (o : LdapObject) (d : LdapDirectory) (parent : Object) (as_parent : Option LdapObject)
      → as_ldap_object parent ≡ as_parent
      → IsFound o d
      → is_ready d.status.phase ≡ true
      → IsParent k o (some parent)
      → Leads P Q (parent_stage k build fuel o d parent as_parent)
  unfolding parent_stage
  parent_stage-Leads o d parent none e r h i =
      Leads-weaken weaken _ (bad_parent-P k build fuel P kube marks_pending marks_failed o)
  parent_stage-Leads o d parent (some p) e r h i =
      Leads-if weaken (not (is_ready (get_phase p)))
        (wait_for k o "Referenced parent object is not ready")
        (with_client k build fuel o d (some parent))
        (λ _. Leads-weaken weaken _ (wait_for-P k build fuel P kube marks_pending marks_failed o _))
        (λ n. ready_stage o d (some parent) r.0 r.1 h i (p, e, true_of_not _ n))

  check_parent-Leads :
      (o : LdapObject) (d : LdapDirectory) (parent : Option Object)
      → IsFound o d
      → is_ready d.status.phase ≡ true
      → IsParent k o parent
      → Leads P Q (Objects.check_parent k build fuel o d parent)
  unfolding Objects.check_parent
  check_parent-Leads o d none r h i = ready_stage o d none r.0 r.1 h i tt
  check_parent-Leads o d (some parent) r h i = parent_stage-Leads o d parent _ refl r h i

  resolve_parent-Leads :
      (o : LdapObject) (d : LdapDirectory) (ref : Option LocalObjectReference)
      → (get_ldap_object_spec o).parent_ref ≡ ref
      → IsFound o d
      → is_ready d.status.phase ≡ true
      → Leads P Q (resolve_parent k build fuel o d ref)
  unfolding resolve_parent ask
  resolve_parent-Leads o d none e r h =
      check_parent-Leads o d none r h (record { reference = inl (e, refl) })
  resolve_parent-Leads o d (some ref) e r h =
      Leads->>=_from weaken _ _ (record { at = kube.resolve_local ref _ })
        λ s p res e'.
          Leads-unless weaken res.error _ _
            (λ f. give_up-P k build fuel P kube marks_pending marks_failed o _ _ (fault f))
            (check_parent-Leads o d res.object r h
              (record { reference = inr (ref, s, e, ap (λ x. x.object) (ok-inj e')) }))

  with_directory-Leads :
      (o : LdapObject) (d : LdapDirectory)
      → IsFound o d
      → Leads P Q (with_directory k build fuel o d)
  unfolding with_directory
  with_directory-Leads o d r =
      Leads-if weaken (not (is_ready d.status.phase))
        (wait_for k o "Referenced directory is not ready")
        (resolve_parent k build fuel o d (get_ldap_object_spec o).parent_ref)
        (λ _. Leads-weaken weaken _ (wait_for-P k build fuel P kube marks_pending marks_failed o _))
        (λ e. resolve_parent-Leads o d _ refl r (true_of_not (is_ready d.status.phase) e))

  find_directory-Leads :
      (o : LdapObject) → IsRequested k build fuel req o → Leads P Q (find_directory k build fuel o)
  unfolding find_directory resolve_directory ask lift
  find_directory-Leads o asked =
      Leads->>=_from weaken (ask directory_of) _ (record { at = kube.resolve_object ref self })
        λ s p res e.
          Leads-unless weaken res.error _ _
            (λ f. give_up-P k build fuel P kube marks_pending marks_failed o _ _ (fault f))
            (Leads->>=_from weaken (lift (as_directory res.object)) _ (Preserves-lift _)
              λ t p' d e'. with_directory-Leads o d (asked, yielded s res d e e'))
    where
      self : Object
      self = named (ldap_object o)

      ref : ObjectReference
      ref = record { name = (get_ldap_object_spec o).directory_ref.name; kind = "LDAPDirectory" }

      directory_of : S → Resolved × S
      directory_of = k.reader.resolve_object ref self

      yielded :
          (s : S) (res : Resolved) (d : LdapDirectory)
          → ◌≡◌ {A = Result Error Resolved} (ok (directory_of s).0) (ok res)
          → as_directory res.object ≡ ok d
          → IsResolved k o d
      yielded s res d e e' = record {
        world = s;
        yields = ap (λ x. x.object) (ok-inj e) ∙ as_directory-eq-ok res.object e';
      }

  check_references-Leads :
      (o : LdapObject)
      → IsRequested k build fuel req o
      → Leads P Q (check_references k build fuel o)
  unfolding check_references
  check_references-Leads o asked =
      Leads->>=_from weaken _ _ (Preserves-ask _ (resolve_references-P k P kube o)) λ s p check e.
        Leads-unless weaken check.error _ _
          (references_failed-P k build fuel P kube marks_pending marks_failed o)
          (Leads-if weaken check.found _ _ (λ _. find_directory-Leads o asked)
            (λ _.
              Leads-weaken weaken _
                (unresolved-P k build fuel P kube marks_pending marks_failed o)))

  got-Leads :
      (s : S) (r : Result Fault LdapObject) → (k.get req s).0 ≡ r → Leads P Q (got k build fuel r)
  unfolding got
  got-Leads s (ok o) h =
      Leads->>=_from weaken _ _
        (ensure_finalizer-P k build fuel P kube marks_pending marks_failed o)
        λ u p o' e.
          check_references-Leads o'
            (record { stored = o; world = s; got = h; next = u; ensured = e })
  got-Leads s (err f) h = Leads-weaken weaken _ (search preserves_rules)
  got-Leads s (panic m) h = Leads-weaken weaken _ (search preserves_rules)
  got-Leads s unfinished h = Leads-weaken weaken _ (search preserves_rules)

  -- What the calls on the cluster keep holds up to the stage that takes place once the directory and
  -- the parent were seen to be ready, and what this stage leads to holds after `Reconcile`.
  pub reconcile-Leads : Leads P Q (reconcile k build fuel req)
  unfolding reconcile attempt
  reconcile-Leads =
      Leads->>=_from weaken _ _ (Preserves-attempt _ (kube.get req))
        λ s p r e. got-Leads s r (ok-inj e)

module _ {S : Type 0} (k : Kube S) (build : BuildClient S) (fuel : ℕ) (P : S → Type 0)
    (kube : KubePreserves k P)
    (marks_pending : (o : LdapObject) → Preserves P (write_status k o pending ""))
    (marks_failed : (o : LdapObject) (text : String)
      → Preserves P (write_status k o failed text)) where
  -- A property is kept by `Reconcile` if the calls on the cluster keep it, and the rest does once the
  -- directory was seen to be ready.
  pub reconcile-P :
      ((o : LdapObject) (d : LdapDirectory) (parent : Option Object)
        → IsResolved k o d
        → is_ready d.status.phase ≡ true
        → Preserves P (with_client k build fuel o d parent))
      → (req : NamespacedName) → Preserves P (reconcile k build fuel req)
  reconcile-P ready_stage req = Preserves-of_Leads (
      reconcile-Leads k build fuel P P (λ s p. p) kube marks_pending marks_failed req
        (λ o d parent asked r h i j. Leads-of_Preserves (ready_stage o d parent r h)))
