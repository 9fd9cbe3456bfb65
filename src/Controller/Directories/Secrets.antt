-- ===== src/Controller/Directories/Secrets.antt =====
-- The secrets of admin passwords that are there already, as the reconciler of directories leaves
-- them (internal/controller/ldapdirectory_controller.go).
use openldap_operator.Base.{String, ◌≡◌, sym, ◌∙◌, subst, true, not, Option, none, some}
use openldap_operator.Go.{Fault, Error, Result, ok, err, panic, unfinished, lift, call_or, attempt}
use openldap_operator.Go.Preserves.{
  Preserves, preserves_rules, Preserves->>=, Preserves->>=_value, Preserves->>=_from,
  Preserves-attempt, Preserves-lift, Preserves-if, Preserves-call_or,
}
use openldap_operator.Api.{LdapDirectory, Secret}
use openldap_operator.Ldap.Builder.{admin_password_secret_name}
use openldap_operator.Controller.{NamespacedName, normal}
use openldap_operator.Controller.Directories.Calls.{DirectoryKube}
use openldap_operator.Controller.Directories.Templates.{resource_meta}
use openldap_operator.Controller.Directories.Marks.{
  write_pending, write_failed, write_ready, mark_ready,
}
use openldap_operator.Controller.Directories.{
  publish, check_ready, reconcile, ensure_admin_password, admin_password_secret,
  create_admin_password, admin_password_got,
}
use openldap_operator.Controller.Directories.Passwords.{map_err-eq-ok}
use openldap_operator.Controller.Directories.Stages.{
  CallsPreserve, is_stateful_set_ready-P, or_fail-P, wait_for-P, reconcile-P,
}

-- What is known of the secrets, as a view `secrets` of the world by namespace and name.
pub record ReadsSecrets {S V : Type 0} (k : DirectoryKube S)
    (secrets : S → String → String → Option V) : Type 0 where
  -- To set an owner leaves the name and the namespace of a secret as they are.
  pub owned :
      (d : LdapDirectory) (x y : Secret)
      → k.set_secret_owner d x ≡ ok y
      → (y.meta.name ≡ x.meta.name) × (y.meta.namespace ≡ x.meta.namespace)
  -- Only a secret that is not there is said to be missing.
  pub missing :
      (namespace name : String) (s : S) (f : Fault)
      → (k.get_secret (record { namespace = namespace; name = name }) s).0 ≡ err f
      → f.not_found ≡ true
      → secrets s namespace name ≡ none
  -- To create a secret leaves those of other names and namespaces as they are.
  pub apart :
      (x : Secret) (namespace name : String) (o : Option V)
      → ¬ ((x.meta.namespace ≡ namespace) × (x.meta.name ≡ name))
      → Preserves (λ s. secrets s namespace name ≡ o) (k.create_secret x)

module _ {S V : Type 0} (k : DirectoryKube S) (secrets : S → String → String → Option V)
    (reads : ReadsSecrets k secrets) (namespace name : String) (v : V) where
  abbrev Kept : S → Type 0
  Kept s = secrets s namespace name ≡ some v

  create_admin_password-Kept :
      (d : LdapDirectory)
      → CallsPreserve k Kept
      → ¬ ((d.meta.namespace ≡ namespace) × (admin_password_secret_name d ≡ name))
      → Preserves Kept (create_admin_password k d)
  unfolding create_admin_password admin_password_secret resource_meta lift
  create_admin_password-Kept d calls other =
      Preserves->>= (call_or _ (k.generate_password 32)) _
        (Preserves-call_or _ _ (calls.generate_password 32))
        λ pw. Preserves->>=_value _ _ (Preserves-lift _) λ s x e.
          let same = reads.owned d _ x (map_err-eq-ok _ _ e) in
          Preserves-call_or _ _ (
            reads.apart x namespace name (some v) (λ h. other (sym same.1 ∙ h.0, sym same.0 ∙ h.1)))

  -- A secret that is there is not said to be missing, so that the one that is made is another.
  got-Kept :
      (d : LdapDirectory) (s : S)
      → CallsPreserve k Kept
      → Kept s
      → (r : Result Fault Secret)
      → (k.get_secret
          (record { namespace = d.meta.namespace; name = admin_password_secret_name d })
          s).0
        ≡ r
      → Preserves Kept (admin_password_got k d r)
  unfolding admin_password_got
  got-Kept d s calls kept (ok x) e = search preserves_rules
  got-Kept d s calls kept (err f) e =
      Preserves-if f.not_found _ _
        (λ not_found. create_admin_password-Kept d calls λ same. some≢none (
          sym kept
          ∙ subst (λ n. secrets s namespace n ≡ none) same.1
              (subst (λ n. secrets s n (admin_password_secret_name d) ≡ none) same.0
                (reads.missing d.meta.namespace (admin_password_secret_name d) s f e not_found))))
        (λ _. Preserves-lift _)
    where
      some≢none : {x : V} → ¬ (some x ≡ none)
      some≢none e = cc
  got-Kept d s calls kept (panic p) e = search preserves_rules
  got-Kept d s calls kept unfinished e = search preserves_rules

  ensure_admin_password-Kept :
      (d : LdapDirectory) → CallsPreserve k Kept → Preserves Kept (ensure_admin_password k d)
  unfolding ensure_admin_password attempt
  ensure_admin_password-Kept d calls =
      Preserves->>=_from _ _ (Preserves-attempt _ (calls.get_secret _))
        λ s kept r e. got-Kept d s calls kept r (attempted e)
    where
      attempted :
          {x y : Result Fault Secret}
          → ◌≡◌ {A = Result Error (Result Fault Secret)} (ok x) (ok y)
          → x ≡ y
      attempted e = cc

  publish-Kept :
      (d : LdapDirectory)
      → CallsPreserve k Kept
      → ((x : LdapDirectory) → Preserves Kept (write_ready k x))
      → Preserves Kept (publish k d)
  unfolding publish mark_ready
  publish-Kept d calls marks_ready = search (marks_ready, calls.event, preserves_rules)

  check_ready-Kept :
      (d : LdapDirectory)
      → CallsPreserve k Kept
      → ((x : LdapDirectory) → Preserves Kept (write_pending k x))
      → ((e : Error) (x : LdapDirectory) → Preserves Kept (write_failed k e x))
      → ((x : LdapDirectory) → Preserves Kept (write_ready k x))
      → Preserves Kept (check_ready k d)
  unfolding check_ready
  check_ready-Kept d calls marks_pending marks_failed marks_ready =
      Preserves->>= _ _
        (or_fail-P k Kept calls marks_pending marks_failed d _ _ _
          (is_stateful_set_ready-P k Kept calls d))
        λ b.
          Preserves-if (not b) _ (publish k d)
            (λ _.
              wait_for-P k Kept calls marks_pending marks_failed d normal "Pending"
                "Waiting for statefulset to become ready")
            (λ _. publish-Kept d calls marks_ready)

  -- Suppose that no call on the cluster changes a secret, but for the creation of one, which leaves
  -- those of other names and namespaces as they are; that only a secret that is not there is said
  -- to be missing; and that to set an owner leaves the name and the namespace of a secret. Then
  -- `Reconcile` leaves every secret that is there as it is, that of an admin password included, for
  -- every request.
  pub reconcile-Kept :
      CallsPreserve k Kept
      → ((d : LdapDirectory) → Preserves Kept (write_pending k d))
      → ((e : Error) (d : LdapDirectory) → Preserves Kept (write_failed k e d))
      → ((d : LdapDirectory) → Preserves Kept (write_ready k d))
      → (req : NamespacedName) (s : S) → secrets s namespace name ≡ some v
      → secrets (reconcile k req s).1 namespace name ≡ some v
  reconcile-Kept calls marks_pending marks_failed marks_ready req s =
      (reconcile-P k Kept calls marks_pending marks_failed (λ d. ensure_admin_password-Kept d calls)
          (λ d. check_ready-Kept d calls marks_pending marks_failed marks_ready) req).at
        s
