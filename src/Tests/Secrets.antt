-- ===== src/Tests/Secrets.antt =====
-- A secret that is there, as the reconciler of directories leaves it.
use openldap_operator.Base.{String, eq_iff, ◌≡◌, refl, sym, ap, ◌∙◌, Option, none, some, arith}
use openldap_operator.Go.{Fault, Result, ok, err}
use openldap_operator.Api.{Secret}
use openldap_operator.Controller.Directories.Marks.{write_pending, write_ready, write_failed}
use openldap_operator.Controller.Directories.{reconcile}
use openldap_operator.Controller.Directories.Secrets.{ReadsSecrets, reconcile-Kept}
use openldap_operator.Tests.Directories.{
  World, empty, cluster, cluster-preserves, store, found_secret, read_secret, request,
}

abbrev stored : World → String → String → Option Secret
stored w namespace name = w.secrets namespace name

stored-store :
    (x : Secret) (w : World) (namespace name : String)
    → ¬ ((x.meta.namespace ≡ namespace) × (x.meta.name ≡ name))
    → stored (store x w) namespace name ≡ stored w namespace name
stored-store x w namespace name h =
    ground (arith, eq_iff x.meta.namespace namespace, eq_iff x.meta.name name)

read_secret-missing : (o : Option Secret) (f : Fault) → read_secret o ≡ err f → o ≡ none
read_secret-missing none f e = refl
read_secret-missing (some x) f e = absurd (cc e)

cluster-ReadsSecrets : ReadsSecrets (cluster none 1) stored
cluster-ReadsSecrets = record {
  owned = λ d x y e. (ap (name_of x) (sym e), ap (namespace_of x) (sym e));
  missing = λ namespace name s f e h. read_secret-missing (stored s namespace name) f e;
  apart = λ x namespace name o h. record { at = λ s p. stored-store x s namespace name h ∙ p };
}
  where
    name_of : Secret → Result Fault Secret → String
    name_of x (ok y) = y.meta.name
    name_of x _ = x.meta.name

    namespace_of : Secret → Result Fault Secret → String
    namespace_of x (ok y) = y.meta.namespace
    namespace_of x _ = x.meta.namespace

reconcile-Kept_example :
    stored
      (reconcile (cluster none 1) request (store (found_secret "old") empty)).1
      "default"
      "ldap-directory-admin-password"
    ≡ some (found_secret "old")
unfolding write_pending write_failed write_ready
reconcile-Kept_example =
    reconcile-Kept (cluster none 1) stored cluster-ReadsSecrets "default"
      "ldap-directory-admin-password" (found_secret "old")
      (cluster-preserves none 1
        (λ s. stored s "default" "ldap-directory-admin-password" ≡ some (found_secret "old"))
        (λ s h. h))
      (λ d. record { at = λ s h. h }) (λ e d. record { at = λ s h. h })
      (λ d. record { at = λ s h. h }) request (store (found_secret "old") empty) refl
