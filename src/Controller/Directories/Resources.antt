-- ===== src/Controller/Directories/Resources.antt =====
-- The stateful set and the service that a directory is run by: the types of k8s.io/api, with the
-- fields that internal/controller/ldapdirectory_controller.go fills.
use openldap_operator.Base.{ℕ, String, Option, List}
use openldap_operator.Api.{ObjectMeta, VolumeMount, PersistentVolumeClaim, ResourceRequirements}

-- `corev1.EnvVar`: a value, or a key of a secret.
pub data EnvVar : Type 0 where
  plain : String → String → EnvVar
  from_secret : String → String → String → EnvVar

pub record ContainerPort : Type 0 where
  pub name : String
  pub container_port : ℕ
  pub protocol : String

-- `corev1.Probe`, by a TCP connection.
pub record Probe : Type 0 where
  pub tcp_port : ℕ
  pub initial_delay_seconds : ℕ
  pub period_seconds : ℕ

pub record Container : Type 0 where
  pub name : String
  pub image : String
  pub command : List String
  pub env : List EnvVar
  pub ports : List ContainerPort
  pub readiness_probe : Option Probe
  pub volume_mounts : List VolumeMount
  pub resources : ResourceRequirements

-- `corev1.Volume`, of a secret.
pub record Volume : Type 0 where
  pub name : String
  pub secret_name : String
  pub default_mode : ℕ

-- `corev1.PodTemplateSpec`
pub record PodTemplate : Type 0 where
  pub labels : List (String × String)
  pub termination_grace_period_seconds : ℕ
  pub fs_group : ℕ
  pub init_containers : List Container
  pub containers : List Container
  pub volumes : List Volume

pub record StatefulSetSpec : Type 0 where
  pub replicas : ℕ
  pub service_name : String
  pub min_ready_seconds : ℕ
  pub match_labels : List (String × String)
  pub template : PodTemplate
  pub volume_claim_templates : List PersistentVolumeClaim

pub record StatefulSet : Type 0 where
  pub meta : ObjectMeta
  pub spec : StatefulSetSpec

pub record ServicePort : Type 0 where
  pub port : ℕ
  pub target_port : ℕ
  pub name : String
  pub protocol : String

pub record Service : Type 0 where
  pub meta : ObjectMeta
  pub selector : List (String × String)
  pub ports : List ServicePort

-- A stateful set as the cluster reports it: the replicas that are asked for, which may be nil, and
-- those that are ready.
pub record StatefulSetState : Type 0 where
  pub replicas : Option ℕ
  pub ready_replicas : ℕ
