-- ===== src/Ldap/Builder/Preserving.antt =====
-- What `Build` (internal/ldap/client_builder.go) preserves of the world, and whose methods the
-- client that it makes has.
use openldap_operator.Base.{ℕ, String, Bool, ◌≡◌, ap, Option, List, if◌then◌else◌}
use openldap_operator.Go.{Error, errorf, Result, ok, err, lift, pure, ◌>>=◌}
use openldap_operator.Go.Calls.{>>=-eq-ok}
use openldap_operator.Go.Preserves.{Preserves, Preserves-reply, preserves_rules}
use openldap_operator.Api.{value_of, LdapDirectory, directory, named, LocalSecretReference, Object}
use openldap_operator.Mapper.{as_secret}
use openldap_operator.Ldap.Goldap.{Goldap}
use openldap_operator.Ldap.Client.{Client}
use openldap_operator.Ldap.Builder.{ClientBuilder, BuildCalls, ca_bundle, certificate_object, build}
use openldap_operator.Ldap.Interface.{LdapClient, client_impl, build_client}

-- Each call of `Build` preserves `P`.
pub record BuildPreserves {S C Scheme : Type 0} (calls : BuildCalls S C Scheme) (P : S → Type 0)
    : Type 0 where
  pub get_secret :
      (c : C) (namespace name : String) → Preserves P (calls.get_secret c namespace name)
  pub resolve_secret :
      (c : C) (scheme : Option Scheme) (ref : LocalSecretReference) (o : Object) (s : S)
      → P s
      → P (calls.resolve_secret c scheme ref o s).1

module _ {S C Scheme : Type 0} (calls : BuildCalls S C Scheme) (P : S → Type 0)
    (kept : BuildPreserves calls P) where
  ca_bundle-P :
      (c : C) (scheme : Option Scheme) (d : LdapDirectory)
      → Preserves P (ca_bundle calls c scheme d)
  unfolding ca_bundle
  ca_bundle-P c scheme d =
      Preserves-reply
        (calls.resolve_secret c scheme d.spec.certificate_secret_ref (named (directory d)))
        (λ res. do
          o ← lift (certificate_object res)
          certificate_secret ← lift (as_secret o)
          let pem = value_of certificate_secret.contents "ca.crt"
          (if calls.append_certs_from_pem pem
              then pure (record { pem = pem })
              else lift (err (errorf "failed to construct ca bundle"))))
        (kept.resolve_secret c scheme _ _) (λ res. search preserves_rules)

  build-P : (b : ClientBuilder C Scheme) → Preserves P (build calls b)
  unfolding build
  build-P b = search (kept.get_secret, ca_bundle-P, preserves_rules)

  module _ (g : Goldap S) (set_equal : List String → List String → Bool) (fuel : ℕ)
      (b : ClientBuilder C Scheme) where
    pub build_client-P : (d : LdapDirectory) → Preserves P (build_client g calls set_equal fuel b d)
    unfolding build_client
    build_client-P d = search (build-P, preserves_rules)

module _ {S C Scheme : Type 0} (g : Goldap S) (calls : BuildCalls S C Scheme)
    (set_equal : List String → List String → Bool) (fuel : ℕ) (b : ClientBuilder C Scheme) where
  -- A client that is made has the methods of a `*clientImpl`.
  pub build_client-eq-ok :
      (d : LdapDirectory) (s : S) (c : LdapClient S)
      → (build_client g calls set_equal fuel b d s).0 ≡ ok c
      → (c0 : Client) × (client_impl g calls set_equal fuel c0 ≡ c)
  unfolding build_client pure
  build_client-eq-ok d s c h =
      let (c0, t, e, h') =
        >>=-eq-ok _ _ (ap (λ r. (r, (build_client g calls set_equal fuel b d s).1)) h) in
      (c0, ap made h')
    where
      made : Result Error (LdapClient S) × S → LdapClient S
      made (ok x, t) = x
      made _ = c
