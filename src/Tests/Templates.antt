-- ===== src/Tests/Templates.antt =====
-- The stateful set, the service and the conditions of a small directory.
use openldap_operator.Base.{◌<>◌, ◌≡◌, refl, ◌↔◌, ◌⊎◌, inl, inr, true, false, none, some, [], ◌∷◌}
use openldap_operator.Go.{Fault, Result, ok}
use openldap_operator.Go.Ints.{pos, negsuc, itoa}
use openldap_operator.Api.{unset, lookup, VolumeMount, PersistentVolumeClaim, LdapDirectory}
use openldap_operator.Ldap.Builder.{directory_address}
use openldap_operator.Controller.Directories.Resources.{plain, from_secret, StatefulSet, Service}
use openldap_operator.Controller.Directories.Templates.{
  env_vars, init_container, container, stateful_set_spec, resource_meta, resource_labels,
  pod_labels, stateful_set_template, service_template,
}
use openldap_operator.Controller.Directories.Templates.Merge.{first_named, Distinct}
use openldap_operator.Controller.Directories.Templates.Volumes.{
  stateful_set_spec-Distinct, stateful_set_spec-overridden, stateful_set_spec-mounted,
}
use openldap_operator.Controller.Directories.Templates.Environment.{number_in, env_vars-read}
use openldap_operator.Controller.Directories.Templates.Labels.{templates-labels}
use openldap_operator.Controller.Directories.Templates.Selectors.{
  selects, templates-selects, directory_address-service,
}
use openldap_operator.Tests.Samples.{directory_in}

itoa_zero : itoa (pos 0) ≡ "0"
unfolding itoa
itoa_zero = refl

itoa_256 : itoa (pos 256) ≡ "256"
unfolding itoa
itoa_256 = refl

itoa_negative : itoa (negsuc 0) ≡ "-1"
unfolding itoa
itoa_negative = refl

abbrev big_data : PersistentVolumeClaim
big_data = record { name = "data"; access_modes = "ReadWriteMany" ∷ []; storage = "1Gi" }

abbrev backup : VolumeMount
backup = record { name = "data"; mount_path = "/backup"; sub_path = "backup"; read_only = true }

-- A directory with a label, a larger claim and another mount of the data.
abbrev example : LdapDirectory
example =
    let d = directory_in unset "example.com" in
    record d {
      meta = record d.meta { labels = ("team", "infra") ∷ ("app.kubernetes.io/name", "mine") ∷ [] };
      spec = record d.spec {
        debug_level = some (pos 256);
        volume_claim_templates = big_data ∷ [];
        volume_mounts = backup ∷ [];
      };
    }

test_env_vars :
    env_vars example
    ≡ plain "LDAP_DOMAIN" "example.com"
      ∷ plain "LDAP_ORGANIZATION" "Example"
      ∷ from_secret "LDAP_ADMIN_PASSWORD" "ldap-directory-admin-password" "password"
      ∷ plain "LDAP_DEBUG_LEVEL" "256"
      ∷ []
unfolding env_vars
test_env_vars = refl

env_vars-read_example :
    (number_in "LDAP_NOFILE" (init_container example).env ≡ none)
    × (number_in "LDAP_DEBUG_LEVEL" (init_container example).env ≡ some (pos 256))
    × (number_in "LDAP_NOFILE" (container example).env ≡ none)
    × (number_in "LDAP_DEBUG_LEVEL" (container example).env ≡ some (pos 256))
env_vars-read_example = env_vars-read example

stateful_set_spec-Distinct_example :
    Distinct (λ t. t.name) (stateful_set_spec example).volume_claim_templates
    × Distinct (λ m. m.name) (container example).volume_mounts
stateful_set_spec-Distinct_example =
    stateful_set_spec-Distinct example (container example) (inr refl)

stateful_set_spec-overridden_example :
    (first_named (λ t. t.name) "data" (stateful_set_spec example).volume_claim_templates
      ≡ some big_data)
    × (first_named (λ m. m.name) "data" (init_container example).volume_mounts ≡ some backup)
stateful_set_spec-overridden_example =
    stateful_set_spec-overridden example "data" (init_container example) (inl refl)

test_certs_mount :
    first_named (λ m. m.name) "certs" (container example).volume_mounts
    ≡ some (record {
      name = "certs";
      mount_path = "/etc/ldap/certs";
      sub_path = "";
      read_only = false;
    })
unfolding container
test_certs_mount = refl

stateful_set_spec-mounted_example :
    ¬ (first_named (λ t. t.name) "certs" (stateful_set_spec example).volume_claim_templates ≡ none)
    ⊎ ¬ (first_named (λ v. v.name) "certs" (stateful_set_spec example).template.volumes ≡ none)
stateful_set_spec-mounted_example =
    stateful_set_spec-mounted example (container example)
      (record { name = "certs"; mount_path = "/etc/ldap/certs"; sub_path = ""; read_only = false })
      "certs" (inr refl) test_certs_mount refl

-- The API server's part in the owners, which the tests leave out.
abbrev owned : {A : Type 0} → LdapDirectory → A → Result Fault A
owned d x = ok x

abbrev made_stateful_set : StatefulSet
made_stateful_set = record {
  meta = record (resource_meta example) { labels = resource_labels example [] };
  spec = stateful_set_spec example;
}

abbrev made_service : Service
made_service = record {
  meta = record (resource_meta example) { labels = resource_labels example [] };
  selector = pod_labels example;
  ports = record { port = 636; target_port = 636; name = "ldaps"; protocol = "TCP" } ∷ [];
}

test_stateful_set_template : stateful_set_template owned example ≡ ok made_stateful_set
unfolding stateful_set_template
test_stateful_set_template = refl

test_service_template : service_template owned example ≡ ok made_service
unfolding service_template
test_service_template = refl

owned-same :
    {A B : Type 0} (f : A → B) (x y : A) → ◌≡◌ {A = Result Fault A} (ok x) (ok y) → f y ≡ f x
owned-same f x y e = cc

templates-labels_example :
    (lookup "app.kubernetes.io/name" made_stateful_set.meta.labels ≡ some "directory")
    × (lookup "app.kubernetes.io/name" made_service.meta.labels ≡ some "directory")
templates-labels_example =
    templates-labels owned owned (λ d x y. owned-same (λ z. z.meta.labels) x y)
      (λ d x y. owned-same (λ z. z.meta.labels) x y) example "app.kubernetes.io/name"
      made_stateful_set made_service (refl, (refl, tt)) test_stateful_set_template
      test_service_template

service-same :
    (x y : Service)
    → ◌≡◌ {A = Result Fault Service} (ok x) (ok y)
    → (y.selector ≡ x.selector)
      × (y.meta.name ≡ x.meta.name)
      × (y.meta.namespace ≡ x.meta.namespace)
service-same x y e = (
  owned-same (λ z. z.selector) x y e,
  owned-same (λ z. z.meta.name) x y e,
  owned-same (λ z. z.meta.namespace) x y e,
)

-- A directory of another name.
abbrev other : LdapDirectory
other = record example { meta = record example.meta { name = "other" } }

abbrev other_stateful_set : StatefulSet
other_stateful_set = record {
  meta = record (resource_meta other) { labels = resource_labels other [] };
  spec = stateful_set_spec other;
}

test_other : stateful_set_template owned other ≡ ok other_stateful_set
unfolding stateful_set_template
test_other = refl

templates-selects_example :
    ((selects made_service.selector other_stateful_set.spec.template.labels ≡ true)
      ↔ (example.meta.name ≡ other.meta.name))
    × ((selects made_stateful_set.spec.match_labels other_stateful_set.spec.template.labels ≡ true)
        ↔ (example.meta.name ≡ other.meta.name))
templates-selects_example =
    templates-selects owned owned (λ d. owned-same (λ z. z.spec)) (λ d. service-same) example other
      made_service made_stateful_set other_stateful_set test_service_template
      test_stateful_set_template test_other

directory_address-service_example :
    directory_address "cluster.local" example
    ≡ "ldaps://"
      <> (made_service.meta.name
          <> ("." <> (made_service.meta.namespace <> (".svc." <> "cluster.local"))))
directory_address-service_example =
    directory_address-service owned owned (λ d. owned-same (λ z. z.spec)) (λ d. service-same)
      "cluster.local" example made_service refl test_service_template
