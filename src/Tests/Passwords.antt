-- ===== src/Tests/Passwords.antt =====
-- The admin password, made in a small cluster and read back.
use openldap_operator.Base.{String, eq_refl, ◌≡◌, refl, sym, ap, ◌∙◌, true, none, some, []}
use openldap_operator.Go.{Fault, Result, ok, ◌>>=◌}
use openldap_operator.Go.Strings.{replace_all}
use openldap_operator.Api.{ready, Secret, value_of, secret, lookup}
use openldap_operator.Ldap.Client.{Client}
use openldap_operator.Ldap.Builder.{BuildCalls, build, with_directory, with_scheme, with_client}
use openldap_operator.Controller.Directories.{create_admin_password, admin_password_length}
use openldap_operator.Controller.Directories.Passwords.{builder_of, create_admin_password-build}
use openldap_operator.Tests.Samples.{meta, directory_in}
use openldap_operator.Tests.Directories.{World, empty, cluster, store, found_secret, read_secret}

abbrev build_calls : BuildCalls World (Unit {0}) (Unit {0})
build_calls = record {
  get_secret = λ c namespace name s. (read_secret (s.secrets namespace name), s);
  resolve_secret = λ c scheme ref o s. (
    record {
      object = some (secret (record { meta = meta "certificate"; contents = [] }));
      found = true;
      error = none;
    },
    s,
  );
  append_certs_from_pem = λ pem. true;
  cluster_domain = "cluster.local";
}

abbrev generated : String
generated = "0123456789abcdef0123456789abcdef"

abbrev client : Client
client = record {
  directory_address = "ldaps://ldap-directory.default.svc.cluster.local";
  ca_bundle = record { pem = "" };
  admin_username = "cn=admin,dc=example,dc=com";
  admin_password = generated;
  base_dn = "dc=example,dc=com";
}

test_created :
    create_admin_password (cluster none 1) (directory_in ready "example.com") empty
    ≡ (ok tt, store (found_secret generated) empty)
unfolding create_admin_password ◌>>=◌
test_created = refl

test_built :
    build build_calls
      (builder_of tt tt (directory_in ready "example.com"))
      (store (found_secret generated) empty)
    ≡ (ok client, store (found_secret generated) empty)
unfolding build ◌>>=◌ value_of lookup replace_all with_directory with_scheme with_client
test_built = refl

store-same : (x : Secret) (w : World) → (store x w).secrets x.meta.namespace x.meta.name ≡ some x
store-same x w = rw (eq_refl x.meta.namespace, eq_refl x.meta.name) refl

read_back :
    (x : Secret) (s t : World)
    → (cluster none 1).create_secret x s ≡ (ok tt, t)
    → (y : Secret) × (u : World) × (build_calls.get_secret tt x.meta.namespace x.meta.name t
        ≡ (ok y, u))
      × (y.contents ≡ x.contents)
read_back x s t e = (
  x,
  t,
  ap (λ o. (read_secret o, t))
      (ap (λ r. r.1.secrets x.meta.namespace x.meta.name) (sym e) ∙ store-same x s),
  refl,
)

same-owned :
    (x y : Secret)
    → ◌≡◌ {A = Result Fault Secret} (ok x) (ok y)
    → (y.meta.name ≡ x.meta.name)
      × (y.meta.namespace ≡ x.meta.namespace)
      × (y.contents ≡ x.contents)
same-owned x y e = (
  ap (λ r. (held r).meta.name) (sym e),
  ap (λ r. (held r).meta.namespace) (sym e),
  ap (λ r. (held r).contents) (sym e),
)
  where
    held : Result Fault Secret → Secret
    held (ok z) = z
    held _ = x

create_admin_password-build_example :
    (v : World) × ((cluster none 1).generate_password admin_password_length empty
      ≡ (ok generated, v))
create_admin_password-build_example =
    create_admin_password-build (cluster none 1) build_calls (λ d x y. same-owned x y)
      (λ c. read_back) tt tt (directory_in ready "example.com") empty
      (store (found_secret generated) empty) (store (found_secret generated) empty) client
      test_created test_built
