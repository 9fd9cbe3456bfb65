-- ===== src/Controller/Directories/Templates.antt =====
-- `statefulSetTemplate` and `serviceTemplate` of internal/controller/ldapdirectory_controller.go.
pub mod Labels
pub mod Merge
pub mod Environment
pub mod Selectors
pub mod Volumes
use openldap_operator.Base.{
  String, ◌<>◌, ◌==◌, false, Option, none, some, List, [], ◌∷◌, ◌++◌, if◌then◌else◌,
}
use openldap_operator.Go.{Fault, Error, fault, wrapf, Result, map_ok, map_err}
use openldap_operator.Go.Ints.{ℤ, itoa}
use openldap_operator.Api.{
  ObjectMeta, ResourceRequirements, VolumeMount, PersistentVolumeClaim, LdapDirectory,
}
use openldap_operator.Ldap.Builder.{admin_password_secret_name}
use openldap_operator.Controller.Directories.Resources.{
  EnvVar, plain, from_secret, Container, StatefulSetSpec, StatefulSet, Service,
}

-- `m[k] = v`
unfoldable pub insert {ℓ} : {V : Type ℓ} → String → V → List (String × V) → List (String × V)
insert k v [] = (k, v) ∷ []
insert k v ((j, w) ∷ m) = let rest = insert k v m in if j == k then (k, v) ∷ m else (j, w) ∷ rest

module _ {A : Type 0} (name_of : A → String) where
  -- The inner loop: in place of the first element of the same name, or else at the end.
  unfoldable pub put : A → List A → List A
  put x [] = x ∷ []
  put x (y ∷ l) = let rest = put x l in if name_of y == name_of x then x ∷ l else y ∷ rest

  -- The outer loop: the elements of a specification, over those that are there by default.
  unfoldable pub merge : List A → List A → List A
  unfolding put
  merge l [] = l
  merge l (x ∷ xs) = merge (put x l) xs

-- A variable for an optional number.
unfoldable pub optional_env : String → Option ℤ → List EnvVar
unfolding itoa
optional_env name none = []
optional_env name (some n) = plain name (itoa n) ∷ []

-- The environment of both containers.
unfoldable pub env_vars : LdapDirectory → List EnvVar
unfolding admin_password_secret_name optional_env
env_vars d =
    (plain "LDAP_DOMAIN" d.spec.domain
      ∷ plain "LDAP_ORGANIZATION" d.spec.organization
      ∷ from_secret "LDAP_ADMIN_PASSWORD" (admin_password_secret_name d) "password"
      ∷ [])
    ++ (optional_env "LDAP_NOFILE" d.spec.file_descriptor_limit
        ++ optional_env "LDAP_DEBUG_LEVEL" d.spec.debug_level)

-- `defaultVolumeClaimTemplates`
abbrev pub default_volume_claim_templates : List PersistentVolumeClaim
default_volume_claim_templates =
    record { name = "config"; access_modes = "ReadWriteOnce" ∷ []; storage = "10Mi" }
    ∷ record { name = "data"; access_modes = "ReadWriteOnce" ∷ []; storage = "100Mi" }
    ∷ []

-- The volume mounts that every container has.
abbrev pub default_volume_mounts : List VolumeMount
default_volume_mounts =
    record { name = "config"; mount_path = "/etc/ldap/slapd.d"; sub_path = ""; read_only = false }
    ∷ record { name = "data"; mount_path = "/var/lib/ldap"; sub_path = ""; read_only = false }
    ∷ record { name = "certs"; mount_path = "/etc/ldap/certs"; sub_path = ""; read_only = false }
    ∷ []

unfoldable pub volume_claim_templates : LdapDirectory → List PersistentVolumeClaim
unfolding merge
volume_claim_templates d =
    merge (λ c. c.name) default_volume_claim_templates d.spec.volume_claim_templates

unfoldable pub volume_mounts : LdapDirectory → List VolumeMount
unfolding merge
volume_mounts d = merge (λ m. m.name) default_volume_mounts d.spec.volume_mounts

-- `"ldap-" + directory.Name`
unfoldable pub resource_name : LdapDirectory → String
resource_name d = "ldap-" <> d.meta.name

-- The labels by which the pods are found.
unfoldable pub pod_labels : LdapDirectory → List (String × String)
pod_labels d = ("app.kubernetes.io/name", "ldap") ∷ ("app.kubernetes.io/instance", d.meta.name) ∷ []

-- `for k, v := range m { labels[k] = v }`
unfoldable pub insert_all : List (String × String) → List (String × String) → List (String × String)
unfolding insert
insert_all [] labels = labels
insert_all ((k, v) ∷ m) labels = insert_all m (insert k v labels)

-- The labels of both resources: the directory's own, and over them those of the operator.
unfoldable pub resource_labels : LdapDirectory → List (String × String) → List (String × String)
unfolding insert insert_all
resource_labels d labels = insert "app.kubernetes.io/managed-by" "ldap-operator" (
    insert "app.kubernetes.io/instance" d.meta.name
      (insert "app.kubernetes.io/name" "directory" (insert_all d.meta.labels labels)))

-- The metadata with which both resources start.
unfoldable pub resource_meta : LdapDirectory → ObjectMeta
unfolding resource_name
resource_meta d = record {
  name = resource_name d;
  namespace = d.meta.namespace;
  generation = 0;
  deletion_timestamp = none;
  finalizers = [];
  labels = [];
  owner_references = [];
}

abbrev no_resources : ResourceRequirements
no_resources = record { limits = []; requests = []; claims = [] }

unfoldable pub init_container : LdapDirectory → Container
unfolding env_vars volume_mounts
init_container d = record {
  name = "openldap-init";
  image = d.spec.image;
  command = "/bootstrap.sh" ∷ [];
  env = env_vars d;
  ports = [];
  readiness_probe = none;
  volume_mounts = volume_mounts d;
  resources = no_resources;
}

unfoldable pub container : LdapDirectory → Container
unfolding env_vars volume_mounts
container d = record {
  name = "openldap";
  image = d.spec.image;
  command = [];
  env = env_vars d;
  ports = record { name = "ldaps"; container_port = 636; protocol = "TCP" } ∷ [];
  readiness_probe =
      some (record { tcp_port = 636; initial_delay_seconds = 5; period_seconds = 10 });
  volume_mounts = volume_mounts d;
  resources = d.spec.resources;
}

unfoldable pub stateful_set_spec : LdapDirectory → StatefulSetSpec
unfolding pod_labels init_container container volume_claim_templates
stateful_set_spec d = record {
  replicas = 1;
  service_name = "ldap";
  min_ready_seconds = 10;
  match_labels = pod_labels d;
  template = record {
    labels = pod_labels d;
    termination_grace_period_seconds = 10;
    fs_group = 101;
    init_containers = init_container d ∷ [];
    containers = container d ∷ [];
    volumes =
        record {
          name = "certs";
          secret_name = d.spec.certificate_secret_ref.name;
          default_mode = 0o400;
        }
        ∷ [];
  };
  volume_claim_templates = volume_claim_templates d;
}

-- The labels are set once an owner is.
unfoldable pub label_stateful_set : LdapDirectory → StatefulSet → StatefulSet
unfolding resource_labels
label_stateful_set d sts = record sts {
  meta = record sts.meta { labels = resource_labels d sts.meta.labels };
}

unfoldable pub label_service : LdapDirectory → Service → Service
unfolding resource_labels
label_service d svc = record svc {
  meta = record svc.meta { labels = resource_labels d svc.meta.labels };
}

-- `statefulSetTemplate`, over `controllerutil.SetOwnerReference`.
unfoldable pub stateful_set_template :
    (LdapDirectory → StatefulSet → Result Fault StatefulSet)
    → LdapDirectory
    → Result Error StatefulSet
unfolding resource_meta stateful_set_spec label_stateful_set
stateful_set_template set_owner_reference d = map_ok (label_stateful_set d) (
    map_err (λ f. wrapf "failed to set owner reference" (fault f))
      (set_owner_reference d (record { meta = resource_meta d; spec = stateful_set_spec d })))

-- `serviceTemplate`, over `controllerutil.SetControllerReference`.
unfoldable pub service_template :
    (LdapDirectory → Service → Result Fault Service) → LdapDirectory → Result Error Service
unfolding resource_meta pod_labels label_service
service_template set_controller_reference d = map_ok (label_service d) (
    map_err (λ f. wrapf "failed to set controller reference" (fault f))
      (set_controller_reference d (record {
        meta = resource_meta d;
        selector = pod_labels d;
        ports = record { port = 636; target_port = 636; name = "ldaps"; protocol = "TCP" } ∷ [];
      })))
