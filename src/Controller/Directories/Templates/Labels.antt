-- ===== src/Controller/Directories/Templates/Labels.antt =====
-- The labels of a directory's stateful set and service, in
-- internal/controller/ldapdirectory_controller.go.
use openldap_operator.Base.{
  String, ◌==◌, eq_iff, ◌≡◌, refl, ◌∙◌, ap, subst, Bool, true, false, Option, none, some, List, [],
  ◌∷◌, arith, if◌then◌else◌,
}
use openldap_operator.Go.{Fault, Result, ok}
use openldap_operator.Go.Calls.{map_ok-eq-ok}
use openldap_operator.Api.{LdapDirectory, lookup}
use openldap_operator.Controller.Directories.Resources.{StatefulSet, Service}
use openldap_operator.Controller.Directories.Templates.{
  insert, insert_all, resource_labels, resource_meta, label_stateful_set, label_service,
  stateful_set_template, service_template,
}
use openldap_operator.Controller.Directories.Templates.Merge.{or_else, first_named, Distinct}

-- The entry that was inserted last is the one that is found.
pub lookup-insert {ℓ} :
    {V : Type ℓ} (k j : String) (v : V) (m : List (String × V))
    → lookup k (insert j v m) ≡ (if j == k then some v else lookup k m)
unfolding lookup insert
lookup-insert k j v [] = refl
lookup-insert k j v ((i, w) ∷ m) =
    let rest = lookup-insert k j v m in ground (arith, eq_iff i j, eq_iff i k, eq_iff j k)

abbrev pub key : String × String → String
key e = e.0

lookup-named :
    (k : String) (m : List (String × String)) → first_named key k m ≡ none → lookup k m ≡ none
unfolding lookup
lookup-named k [] e = refl
lookup-named k ((j, v) ∷ m) e = let rest = lookup-named k m in ground arith

lookup-insert_all :
    (k : String) (m labels : List (String × String))
    → Distinct key m
    → lookup k (insert_all m labels) ≡ or_else (lookup k m) (lookup k labels)
unfolding lookup insert_all
lookup-insert_all k [] labels h = refl
lookup-insert_all k ((j, v) ∷ m) labels h =
    lookup-insert_all k m (insert j v labels) h.1
    ∙ ap (or_else (lookup k m)) (lookup-insert k j v labels)
    ∙ later_first (j == k) λ e.
      let same : j ≡ k = (eq_iff j k).0 e in
      lookup-named k m (subst (λ n. first_named key n m ≡ none) same h.0)
  where
    later_first :
        (b : Bool)
        → (b ≡ true → lookup k m ≡ none)
        → or_else (lookup k m) (if b then some v else lookup k labels)
          ≡ or_else (if b then some v else lookup k m) (lookup k labels)
    later_first true absent = rw (absent refl)
    later_first false absent = refl

-- The label under a key, of the stateful set and the service of a directory.
abbrev pub label_of : LdapDirectory → String → Option String
label_of d k =
    if "app.kubernetes.io/managed-by" == k
    then some "ldap-operator"
    else if "app.kubernetes.io/instance" == k
    then some d.meta.name
    else if "app.kubernetes.io/name" == k
    then some "directory"
    else lookup k d.meta.labels

lookup-resource_labels :
    (d : LdapDirectory) (k : String) (labels : List (String × String))
    → Distinct key d.meta.labels
    → labels ≡ []
    → lookup k (resource_labels d labels) ≡ label_of d k
unfolding lookup resource_labels
lookup-resource_labels d k labels h e = over _ "app.kubernetes.io/managed-by" "ldap-operator" (
    over _ "app.kubernetes.io/instance" d.meta.name (
      over _ "app.kubernetes.io/name" "directory" (
        lookup-insert_all k d.meta.labels labels h
        ∙ ap (λ l. or_else (lookup k d.meta.labels) (lookup k l)) e
        ∙ or_else-nothing (lookup k d.meta.labels))))
  where
    over :
        {o : Option String} (m : List (String × String)) (j v : String)
        → lookup k m ≡ o
        → lookup k (insert j v m) ≡ (if j == k then some v else o)
    over m j v p = lookup-insert k j v m ∙ ap (λ x. if j == k then some v else x) p

    or_else-nothing : (o : Option String) → or_else o none ≡ o
    or_else-nothing none = refl
    or_else-nothing (some v) = refl

module _ (set_owner_reference : LdapDirectory → StatefulSet → Result Fault StatefulSet)
    (set_controller_reference : LdapDirectory → Service → Result Fault Service)
    (stateful_set_labels : (d : LdapDirectory) (x y : StatefulSet)
      → set_owner_reference d x ≡ ok y
      → y.meta.labels ≡ x.meta.labels)
    (service_labels : (d : LdapDirectory) (x y : Service)
      → set_controller_reference d x ≡ ok y
      → y.meta.labels ≡ x.meta.labels) where
  -- If to set an owner leaves the labels of a resource as they are, and the keys of the directory's
  -- own labels are distinct, then the stateful set and the service that are made for a directory
  -- have under each key the operator's label, if it is one of the three keys that the operator
  -- manages, and otherwise the directory's own label, if any.
  pub templates-labels :
      (d : LdapDirectory) (k : String) (sts : StatefulSet) (svc : Service)
      → Distinct key d.meta.labels
      → stateful_set_template set_owner_reference d ≡ ok sts
      → service_template set_controller_reference d ≡ ok svc
      → (lookup k sts.meta.labels ≡ label_of d k) × (lookup k svc.meta.labels ≡ label_of d k)
  unfolding stateful_set_template service_template label_stateful_set label_service resource_meta
  templates-labels d k sts svc h e f =
      let (x, r, p) = map_ok-eq-ok _ _ (set_owner_reference d _) e in
      let (y, r', p') = map_ok-eq-ok _ _ (set_controller_reference d _) f in
      (
        ap (λ z. lookup k z.meta.labels) p
            ∙ lookup-resource_labels d k x.meta.labels h (stateful_set_labels d _ x r),
        ap (λ z. lookup k z.meta.labels) p'
            ∙ lookup-resource_labels d k y.meta.labels h (service_labels d _ y r'),
      )
