-- ===== src/Api.antt =====
-- The objects of the cluster: api/ldap_object.go and the types of api/v1alpha1, with what the
-- program uses of their Kubernetes parts (metadata, secrets, references).
pub mod Naming
pub mod References
pub mod Zero
pub mod Scheme
use openldap_operator.Base.{
  ℕ, String, ◌==◌, Bool, true, Option, none, some, List, [], ◌∷◌, nat_eq, if◌then◌else◌,
}
use openldap_operator.Go.{Fault}
use openldap_operator.Go.Ints.{ℤ}

-- `map[string]T`, as its entries. A missing key reads as nothing.
unfoldable pub lookup {ℓ} : {V : Type ℓ} → String → List (String × V) → Option V
lookup k [] = none
lookup k ((j, v) ∷ m) = if j == k then some v else lookup k m

-- The text under a key of a `map[string][]byte`, empty if the key is missing.
unfoldable pub value_of : List (String × String) → String → String
unfolding lookup
value_of m k = elim (lookup k m) [ none ↦ "" | some v ↦ v ]

-- `metav1.OwnerReference`, by what it names and whether it is the controller's.
pub record OwnerReference : Type 0 where
  pub kind : String
  pub name : String
  pub is_controller : Bool

-- `metav1.ObjectMeta`. The deletion timestamp is nil until the object is being deleted.
pub record ObjectMeta : Type 0 where
  pub name : String
  pub namespace : String
  pub generation : ℕ
  pub deletion_timestamp : Option ℕ
  pub finalizers : List String
  pub labels : List (String × String)
  pub owner_references : List OwnerReference

-- `GetDeletionTimestamp().IsZero()`: nil, or the zero time.
unfoldable pub is_zero : Option ℕ → Bool
is_zero none = true
is_zero (some t) = nat_eq t 0

-- `reference.ObjectReference`, as this program fills it.
pub record ObjectReference : Type 0 where
  pub name : String
  pub kind : String

-- `reference.LocalObjectReference`
pub record LocalObjectReference : Type 0 where
  pub api_version : String
  pub kind : String
  pub name : String

-- `reference.LocalSecretReference`
pub record LocalSecretReference : Type 0 where
  pub name : String

-- `LocalLDAPDirectoryReference`
pub record LocalLdapDirectoryReference : Type 0 where
  pub name : String

-- `LDAPObjectSpec`
pub record LdapObjectSpec : Type 0 where
  pub directory_ref : LocalLdapDirectoryReference
  pub parent_ref : Option LocalObjectReference

-- `Phase`; `unset` is the empty text of a new object. The directory's phases are the same three.
pub data Phase : Type 0 where
  unset pending ready failed : Phase

pub record SimpleStatus : Type 0 where
  pub phase : Phase
  pub observed_generation : ℕ
  pub message : String

pub record LdapGroupSpec : Type 0 where
  pub object_spec : LdapObjectSpec
  pub open object_spec use *
  pub name : String
  pub description : String
  pub members : List String

pub record LdapGroup : Type 0 where
  pub meta : ObjectMeta
  pub spec : LdapGroupSpec
  pub status : SimpleStatus

pub record LdapOrganizationalUnitSpec : Type 0 where
  pub object_spec : LdapObjectSpec
  pub open object_spec use *
  pub name : String
  pub description : String

pub record LdapOrganizationalUnit : Type 0 where
  pub meta : ObjectMeta
  pub spec : LdapOrganizationalUnitSpec
  pub status : SimpleStatus

pub record LdapUserSpec : Type 0 where
  pub object_spec : LdapObjectSpec
  pub open object_spec use *
  pub username : String
  pub name : String
  pub surname : String
  pub email : String
  pub password_secret_ref : Option LocalSecretReference

pub record LdapUser : Type 0 where
  pub meta : ObjectMeta
  pub spec : LdapUserSpec
  pub status : SimpleStatus

-- `metav1.Condition`
pub record Condition : Type 0 where
  pub type : String
  pub is_true : Bool
  pub observed_generation : ℕ
  pub reason : String
  pub message : String

pub record LdapDirectoryStatus : Type 0 where
  pub phase : Phase
  pub observed_generation : ℕ
  pub conditions : List Condition

-- `corev1.VolumeMount`, the fields that name a mount and place it.
pub record VolumeMount : Type 0 where
  pub name : String
  pub mount_path : String
  pub sub_path : String
  pub read_only : Bool

-- `corev1.PersistentVolumeClaim`, with the storage that it requests.
pub record PersistentVolumeClaim : Type 0 where
  pub name : String
  pub access_modes : List String
  pub storage : String

-- `corev1.ResourceRequirements`
pub record ResourceRequirements : Type 0 where
  pub limits : List (String × String)
  pub requests : List (String × String)
  pub claims : List String

-- `LDAPDirectorySpec`
pub record LdapDirectorySpec : Type 0 where
  pub image : String
  pub domain : String
  pub organization : String
  pub certificate_secret_ref : LocalSecretReference
  pub debug_level : Option ℤ
  pub file_descriptor_limit : Option ℤ
  pub address_override : String
  pub volume_mounts : List VolumeMount
  pub volume_claim_templates : List PersistentVolumeClaim
  pub resources : ResourceRequirements

pub record LdapDirectory : Type 0 where
  pub meta : ObjectMeta
  pub spec : LdapDirectorySpec
  pub status : LdapDirectoryStatus

-- `corev1.Secret`
pub record Secret : Type 0 where
  pub meta : ObjectMeta
  pub contents : List (String × String)

-- A value of the interface `api.LDAPObject`: the three types that implement it.
pub data LdapObject : Type 0 where
  group : LdapGroup → LdapObject
  organizational_unit : LdapOrganizationalUnit → LdapObject
  user : LdapUser → LdapObject

-- A value of the interface `api.NamedLDAPObject`.
pub data NamedLdapObject : Type 0 where
  directory : LdapDirectory → NamedLdapObject
  ldap_object : LdapObject → NamedLdapObject

-- A `runtime.Object`: one with a distinguished name, a secret, or one of another kind.
pub data Object : Type 0 where
  named : NamedLdapObject → Object
  secret : Secret → Object
  other : String → ObjectMeta → Object

-- `GetLDAPObjectSpec`
unfoldable pub get_ldap_object_spec : LdapObject → LdapObjectSpec
get_ldap_object_spec (group g) = g.spec.object_spec
get_ldap_object_spec (organizational_unit ou) = ou.spec.object_spec
get_ldap_object_spec (user u) = u.spec.object_spec

-- `SetStatus`
unfoldable pub set_status : LdapObject → SimpleStatus → LdapObject
set_status (group g) st = group (record g { status = st })
set_status (organizational_unit ou) st = organizational_unit (record ou { status = st })
set_status (user u) st = user (record u { status = st })

-- The status, of which `GetPhase` reads the phase.
unfoldable pub get_status : LdapObject → SimpleStatus
get_status (group g) = g.status
get_status (organizational_unit ou) = ou.status
get_status (user u) = u.status

unfoldable pub get_phase : LdapObject → Phase
unfolding get_status
get_phase o = (get_status o).phase

-- The metadata, behind the accessors of `metav1.Object`.
unfoldable pub get_meta : LdapObject → ObjectMeta
get_meta (group g) = g.meta
get_meta (organizational_unit ou) = ou.meta
get_meta (user u) = u.meta

-- What `Resolve` of a reference returns: an object (or nil), whether it was found, an error.
pub record Resolved : Type 0 where
  pub object : Option Object
  pub found : Bool
  pub error : Option Fault

-- Package reference of operator-utils over a `client.Reader` and a scheme: `Resolve` for each kind
-- of reference, with the object that holds the reference.
pub record Reader (S : Type 0) : Type 0 where
  pub resolve_object : ObjectReference → Object → S → Resolved × S
  pub resolve_local_object : LocalObjectReference → Object → S → Resolved × S
  pub resolve_secret : LocalSecretReference → Object → S → Resolved × S

-- `LocalLDAPDirectoryReference.Resolve`
unfoldable pub resolve_directory :
    {S : Type 0} → Reader S → LocalLdapDirectoryReference → Object → S → Resolved × S
resolve_directory r ref parent =
    r.resolve_object (record { name = ref.name; kind = "LDAPDirectory" }) parent
