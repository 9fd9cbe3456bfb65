-- ===== src/Controller/Directories/Templates/Volumes.antt =====
-- The volume claim templates and the volume mounts of a directory's stateful set, in
-- internal/controller/ldapdirectory_controller.go.
use openldap_operator.Base.{
  String, ◌==◌, ◌≡◌, refl, sym, ◌∙◌, ap, ◌⊎◌, inl, inr, true, none, some, arith,
}
use openldap_operator.Api.{LdapDirectory, VolumeMount}
use openldap_operator.Controller.Directories.Resources.{Container}
use openldap_operator.Controller.Directories.Templates.{
  volume_claim_templates, volume_mounts, default_volume_claim_templates, default_volume_mounts,
  init_container, container, stateful_set_spec,
}
use openldap_operator.Controller.Directories.Templates.Merge.{
  first_named, last_named, or_else, Distinct, first_named-merge, merge-Distinct, merge-none,
}

-- A container of the stateful set that is made for a directory.
abbrev pub ContainerOf : LdapDirectory → Container → Type 0
ContainerOf d c = (c ≡ init_container d) ⊎ (c ≡ container d)

container-mounts :
    (d : LdapDirectory) (c : Container) → ContainerOf d c → c.volume_mounts ≡ volume_mounts d
unfolding init_container container
container-mounts d c (inl e) = ap (λ x. x.volume_mounts) e
container-mounts d c (inr e) = ap (λ x. x.volume_mounts) e

-- In the stateful set of every directory, no two volume claim templates have the same name, and in
-- each of its containers, no two volume mounts have the same name.
pub stateful_set_spec-Distinct :
    (d : LdapDirectory) (c : Container)
    → ContainerOf d c
    → Distinct (λ t. t.name) (stateful_set_spec d).volume_claim_templates
      × Distinct (λ m. m.name) c.volume_mounts
unfolding stateful_set_spec volume_claim_templates volume_mounts
stateful_set_spec-Distinct d c is = (
  merge-Distinct (λ t. t.name) default_volume_claim_templates d.spec.volume_claim_templates
      (refl, (refl, tt)),
  rw (container-mounts d c is) (
      merge-Distinct (λ m. m.name) default_volume_mounts d.spec.volume_mounts
        (refl, (refl, (refl, tt)))),
)

-- In the stateful set of every directory, the volume claim template of a name is the last of that
-- name in the directory's specification, or else the default of that name, and none otherwise; and
-- the same holds of the volume mounts of each container.
pub stateful_set_spec-overridden :
    (d : LdapDirectory) (n : String) (c : Container)
    → ContainerOf d c
    → (first_named (λ t. t.name) n (stateful_set_spec d).volume_claim_templates
        ≡ or_else
            (last_named (λ t. t.name) n d.spec.volume_claim_templates)
            (first_named (λ t. t.name) n default_volume_claim_templates))
      × (first_named (λ m. m.name) n c.volume_mounts
          ≡ or_else
              (last_named (λ m. m.name) n d.spec.volume_mounts)
              (first_named (λ m. m.name) n default_volume_mounts))
unfolding stateful_set_spec volume_claim_templates volume_mounts
stateful_set_spec-overridden d n c is = (
  first_named-merge (λ t. t.name) n default_volume_claim_templates d.spec.volume_claim_templates,
  rw (container-mounts d c is)
      (first_named-merge (λ m. m.name) n default_volume_mounts d.spec.volume_mounts),
)

default_mount-names :
    (n : String) (m : VolumeMount)
    → first_named (λ x. x.name) n default_volume_mounts ≡ some m
    → (("config" == n) ≡ true) ⊎ ((("data" == n) ≡ true) ⊎ (("certs" == n) ≡ true))
default_mount-names n m e = ground arith

default_claim-config :
    (n : String)
    → ("config" == n) ≡ true
    → ¬ (first_named (λ t. t.name) n default_volume_claim_templates ≡ none)
default_claim-config n e h = ground arith

default_claim-data :
    (n : String)
    → ("data" == n) ≡ true
    → ¬ (first_named (λ t. t.name) n default_volume_claim_templates ≡ none)
default_claim-data n e h = ground arith

certs-mounted :
    (d : LdapDirectory) (n : String)
    → ("certs" == n) ≡ true
    → ¬ (first_named (λ v. v.name) n (stateful_set_spec d).template.volumes ≡ none)
unfolding stateful_set_spec
certs-mounted d n e h = ground arith

-- A volume mount of a container whose name the directory's specification does not mention has a
-- volume: a volume claim template of the stateful set, or a volume of its pods.
pub stateful_set_spec-mounted :
    (d : LdapDirectory) (c : Container) (m : VolumeMount) (n : String)
    → ContainerOf d c
    → first_named (λ x. x.name) n c.volume_mounts ≡ some m
    → last_named (λ x. x.name) n d.spec.volume_mounts ≡ none
    → ¬ (first_named (λ t. t.name) n (stateful_set_spec d).volume_claim_templates ≡ none)
      ⊎ ¬ (first_named (λ v. v.name) n (stateful_set_spec d).template.volumes ≡ none)
unfolding stateful_set_spec volume_claim_templates volume_mounts
stateful_set_spec-mounted d c m n is e unmentioned = elim (default_mount-names n m by_default) [
  | inl config ↦ inl λ h. default_claim-config n config (at_default h)
  | inr (inl data_) ↦ inl λ h. default_claim-data n data_ (at_default h)
  | inr (inr certs) ↦ inr (certs-mounted d n certs)
]
  where
    by_default : first_named (λ x. x.name) n default_volume_mounts ≡ some m
    by_default =
        ap (λ o. or_else o (first_named (λ x. x.name) n default_volume_mounts)) (sym unmentioned)
        ∙ sym (stateful_set_spec-overridden d n c is).1
        ∙ e

    at_default :
        first_named (λ t. t.name) n (stateful_set_spec d).volume_claim_templates ≡ none
        → first_named (λ t. t.name) n default_volume_claim_templates ≡ none
    at_default =
        merge-none (λ t. t.name) n default_volume_claim_templates d.spec.volume_claim_templates
