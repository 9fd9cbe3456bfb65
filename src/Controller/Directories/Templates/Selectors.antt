-- ===== src/Controller/Directories/Templates/Selectors.antt =====
-- How the service of a directory finds the pods of its stateful set, and how the client of
-- internal/ldap/client_builder.go finds the service that
-- internal/controller/ldapdirectory_controller.go makes.
use text.Mathlib.TextLemmas.{append_assoc}
use openldap_operator.Base.{
  String, ◌<>◌, ◌==◌, eq_iff, ◌≡◌, sym, ◌∙◌, ap, ◌↔◌, Bool, true, false, ◌&&◌, Option, none, some,
  List, [], ◌∷◌, arith,
}
use openldap_operator.Go.{Fault, Result, ok}
use openldap_operator.Go.Calls.{map_ok-eq-ok}
use openldap_operator.Api.{LdapDirectory, lookup}
use openldap_operator.Ldap.Builder.{directory_address}
use openldap_operator.Controller.Directories.Resources.{StatefulSet, Service}
use openldap_operator.Controller.Directories.Templates.{
  resource_name, resource_meta, pod_labels, label_stateful_set, label_service,
  stateful_set_template, service_template, stateful_set_spec,
}

abbrev pub is_value : Option String → String → Bool
is_value none v = false
is_value (some w) v = w == v

-- A selector of labels: each of its keys has its value among the labels.
abbrev pub selects : List (String × String) → List (String × String) → Bool
selects [] labels = true
selects ((k, v) ∷ selector) labels = is_value (lookup k labels) v && selects selector labels

selects-pod_labels :
    (d d' : LdapDirectory)
    → (selects (pod_labels d) (pod_labels d') ≡ true) ↔ (d.meta.name ≡ d'.meta.name)
unfolding pod_labels lookup
selects-pod_labels d d' = (
  (λ e. ground (arith, eq_iff d'.meta.name d.meta.name)),
  (λ e. ground (arith, eq_iff d'.meta.name d.meta.name)),
)

module _ (set_owner_reference : LdapDirectory → StatefulSet → Result Fault StatefulSet)
    (set_controller_reference : LdapDirectory → Service → Result Fault Service)
    (stateful_set_kept : (d : LdapDirectory) (x y : StatefulSet)
      → set_owner_reference d x ≡ ok y
      → y.spec ≡ x.spec)
    (service_kept : (d : LdapDirectory) (x y : Service)
      → set_controller_reference d x ≡ ok y
      → (y.selector ≡ x.selector)
        × (y.meta.name ≡ x.meta.name)
        × (y.meta.namespace ≡ x.meta.namespace)) where
  stateful_set_template-spec :
      (d : LdapDirectory) (sts : StatefulSet)
      → stateful_set_template set_owner_reference d ≡ ok sts
      → sts.spec ≡ stateful_set_spec d
  unfolding stateful_set_template label_stateful_set
  stateful_set_template-spec d sts e =
      let (x, r, p) = map_ok-eq-ok _ _ (set_owner_reference d _) e in
      ap (λ y. y.spec) p ∙ stateful_set_kept d _ x r

  service_template-made :
      (d : LdapDirectory) (svc : Service)
      → service_template set_controller_reference d ≡ ok svc
      → (svc.selector ≡ pod_labels d)
        × (svc.meta.name ≡ resource_name d)
        × (svc.meta.namespace ≡ d.meta.namespace)
  unfolding service_template label_service resource_meta
  service_template-made d svc e =
      let (x, r, p) = map_ok-eq-ok _ _ (set_controller_reference d _) e in
      let kept = service_kept d _ x r in
      (
        ap (λ y. y.selector) p ∙ kept.0,
        ap (λ y. y.meta.name) p ∙ kept.1,
        ap (λ y. y.meta.namespace) p ∙ kept.2,
      )

  -- If to set an owner leaves the specification of a stateful set and the selector, the name and
  -- the namespace of a service as they are, then the stateful set that is made for a directory, and
  -- the service that is made for one, select the pods of the stateful set of a directory exactly if
  -- the two directories have the same name.
  pub templates-selects :
      (d d' : LdapDirectory) (svc : Service) (sts sts' : StatefulSet)
      → service_template set_controller_reference d ≡ ok svc
      → stateful_set_template set_owner_reference d ≡ ok sts
      → stateful_set_template set_owner_reference d' ≡ ok sts'
      → ((selects svc.selector sts'.spec.template.labels ≡ true) ↔ (d.meta.name ≡ d'.meta.name))
        × ((selects sts.spec.match_labels sts'.spec.template.labels ≡ true)
            ↔ (d.meta.name ≡ d'.meta.name))
  unfolding stateful_set_spec
  templates-selects d d' svc sts sts' e f f' =
      rw
        (
          (service_template-made d svc e).0,
          stateful_set_template-spec d sts f,
          stateful_set_template-spec d' sts' f',
        )
        (selects-pod_labels d d', selects-pod_labels d d')

  -- If to set an owner leaves those as they are, then the client of a directory without an address
  -- of its own dials, over TLS, the name in the cluster's domain of the service that is made for
  -- the directory.
  pub directory_address-service :
      (cluster_domain : String) (d : LdapDirectory) (svc : Service)
      → d.spec.address_override ≡ ""
      → service_template set_controller_reference d ≡ ok svc
      → directory_address cluster_domain d
        ≡ "ldaps://"
          <> (svc.meta.name <> ("." <> (svc.meta.namespace <> (".svc." <> cluster_domain))))
  unfolding directory_address resource_name
  directory_address-service cluster_domain d svc no_override e =
      let made = service_template-made d svc e in
      let rest = "." <> (d.meta.namespace <> (".svc." <> cluster_domain)) in
      rw (no_override, made.1, made.2)
        (append_assoc "ldaps://" "ldap-" (d.meta.name <> rest)
          ∙ ap (λ t. "ldaps://" <> t) (sym (append_assoc "ldap-" d.meta.name rest)))
