-- ===== src/Ldap/Builder.antt =====
-- internal/ldap/client_builder.go: a builder collects the cluster's client, its scheme and a
-- directory, and makes the client of that directory.
pub mod Names
pub mod Preserving
use openldap_operator.Base.{
  String, ◌<>◌, ◌==◌, Bool, true, false, not, Option, none, some, if◌then◌else◌,
}
use openldap_operator.Go.{
  Fault, Error, fault, errorf, wrapf, Result, ok, err, panic, M, pure, lift, call_or, ◌>>=◌,
}
use openldap_operator.Go.Strings.{replace_all}
use openldap_operator.Api.{
  value_of, LdapDirectory, Secret, directory, Object, named, Resolved, LocalSecretReference,
}
use openldap_operator.Mapper.{as_secret}
use openldap_operator.Ldap.Goldap.{CertPool}
use openldap_operator.Ldap.Client.{Client}

-- `clientBuilderImpl`, over the types of the cluster's client and of the scheme; a field is nil
-- until it is given.
pub record ClientBuilder (C Scheme : Type 0) : Type 0 where
  pub client : Option C
  pub scheme : Option Scheme
  pub directory : Option LdapDirectory

-- `fmt.Sprintf("ldap-%s-admin-password", directory.Name)`
unfoldable pub admin_password_secret_name : LdapDirectory → String
admin_password_secret_name d = "ldap-" <> (d.meta.name <> "-admin-password")

-- `"dc=" + strings.ReplaceAll(domain, ".", ",dc=")`
unfoldable pub base_dn : LdapDirectory → String
base_dn d = "dc=" <> replace_all d.spec.domain b'.' ",dc="

-- The address of the directory, with the domain of the cluster.
unfoldable pub directory_address : String → LdapDirectory → String
directory_address cluster_domain d =
    if not (d.spec.address_override == "")
    then d.spec.address_override
    else "ldaps://ldap-"
      <> (d.meta.name <> ("." <> (d.meta.namespace <> (".svc." <> cluster_domain))))

-- `if !ok && err == nil { … } else if err != nil { … }` after resolving the certificate's secret.
unfoldable pub certificate_object : Resolved → Result Error (Option Object)
certificate_object r = elim r.error [
  | some f ↦ err (wrapf "failed to resolve certificate secret reference" (fault f))
  | none ↦ elim r.found [
    | true ↦ ok r.object
    | false ↦ err (errorf "referenced certificate secret not found")
  ]
]

-- `b.field`, dereferenced.
unfoldable pub not_nil : {A : Type 0} → Option A → Result Error A
not_nil none = panic "invalid memory address or nil pointer dereference"
not_nil (some a) = ok a

module _ {C Scheme : Type 0} where
  -- `NewClientBuilder`
  unfoldable pub new_client_builder : ClientBuilder C Scheme
  new_client_builder = record { client = none; scheme = none; directory = none }

  -- `WithClient`
  unfoldable pub with_client : ClientBuilder C Scheme → C → ClientBuilder C Scheme
  with_client b c = record { client = some c; scheme = b.scheme; directory = b.directory }

  -- `WithScheme`
  unfoldable pub with_scheme : ClientBuilder C Scheme → Scheme → ClientBuilder C Scheme
  with_scheme b s = record { client = b.client; scheme = some s; directory = b.directory }

  -- `WithDirectory`
  unfoldable pub with_directory : ClientBuilder C Scheme → LdapDirectory → ClientBuilder C Scheme
  with_directory b d = record { client = b.client; scheme = b.scheme; directory = some d }

-- What `Build` calls: `Get` of a secret by namespace and name, `Resolve` of a secret's reference,
-- `AppendCertsFromPEM` (whether the text holds a certificate) and `k8sutils.GetClusterDomain`.
pub record BuildCalls (S C Scheme : Type 0) : Type 0 where
  pub get_secret : C → String → String → M S Fault Secret
  pub resolve_secret : C → Option Scheme → LocalSecretReference → Object → S → Resolved × S
  pub append_certs_from_pem : String → Bool
  pub cluster_domain : String

module _ {S C Scheme : Type 0} (calls : BuildCalls S C Scheme) where
  open calls use {get_secret, resolve_secret, append_certs_from_pem, cluster_domain}

  -- The CA bundle of a directory.
  unfoldable pub ca_bundle : C → Option Scheme → LdapDirectory → M S Error CertPool
  unfolding certificate_object as_secret value_of
  ca_bundle c scheme d s =
      let (res, s') =
        resolve_secret c scheme d.spec.certificate_secret_ref (named (directory d)) s in
      let pool : M S Error CertPool = do
        o ← lift (certificate_object res)
        certificate_secret ← lift (as_secret o)
        let pem = value_of certificate_secret.contents "ca.crt"
        (if append_certs_from_pem pem
            then pure (record { pem = pem })
            else lift (err (errorf "failed to construct ca bundle")))
      in pool s'

  -- `Build`
  unfoldable pub build : ClientBuilder C Scheme → M S Error Client
  unfolding not_nil admin_password_secret_name ca_bundle directory_address base_dn value_of
  build b = do
    d ← lift (not_nil b.directory)
    c ← lift (not_nil b.client)
    admin_password_secret ←
        call_or "failed to get admin password secret"
          (get_secret c d.meta.namespace (admin_password_secret_name d))
    pool ← ca_bundle c b.scheme d
    pure (record {
      directory_address = directory_address cluster_domain d;
      ca_bundle = pool;
      admin_username = "cn=admin," <> base_dn d;
      admin_password = value_of admin_password_secret.contents "password";
      base_dn = base_dn d;
    })
