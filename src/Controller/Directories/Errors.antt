-- ===== src/Controller/Directories/Errors.antt =====
-- The errors of `Reconcile` of a directory, stage by stage
-- (internal/controller/ldapdirectory_controller.go).
use openldap_operator.Base.{
  ◌≡◌, refl, ap, subst, inl, inr, Bool, true, false, contains, if◌then◌else◌,
}
use openldap_operator.Go.{
  Fault, Error, fault, Result, ok, err, panic, unfinished, lift, attempt, call_or, pure,
}
use openldap_operator.Go.Fails.{
  Fails, >>=-eq-err, AtError, fails_rules, Fails-lift, Fails->>=, Fails-if, Fails-pure,
  Fails-effect, Fails-attempt,
}
use openldap_operator.Api.{LdapDirectory, Secret}
use openldap_operator.Controller.{NamespacedName}
use openldap_operator.Controller.Marks.{done}
use openldap_operator.Controller.Directories.Calls.{DirectoryKube}
use openldap_operator.Controller.Directories.Marks.{mark_ready}
use openldap_operator.Controller.Directories.Settled.{Read}
use openldap_operator.Controller.Directories.{
  create_admin_password, admin_password_got, ensure_admin_password, reconcile_stateful_set,
  reconcile_service, publish, check_ready, create_or_update, check_references, found, got,
  reconcile, ensure_finalizer,
}
use openldap_operator.Controller.Directories.Reports.{
  Reported, read, left_out, left_out-call_or, or_fail-Fails, fail_with-Fails, wait_for-Fails,
  ensure_finalizer-Fails, delete_stage-Fails, of_err,
}

module _ {S : Type 0} (k : DirectoryKube S) (req : NamespacedName) (before : S) where
  create_admin_password-Fails :
      (d : LdapDirectory) → Fails (Reported k req before) (create_admin_password k d)
  unfolding create_admin_password contains call_or lift
  create_admin_password-Fails d =
      Fails->>= _ _ (left_out-call_or k req before _ (k.generate_password 32) refl) λ pw.
        Fails->>= _ _
          (left_out-call_or k req before "failed to set owner reference on admin password secret"
            (lift (k.set_secret_owner d _)) refl)
          λ x. left_out-call_or k req before _ (k.create_secret x) refl

  admin_password_got-Fails :
      (d : LdapDirectory) (r : Result Fault Secret)
      → Fails (Reported k req before) (admin_password_got k d r)
  unfolding admin_password_got contains
  admin_password_got-Fails d (ok x) = Fails-pure tt
  admin_password_got-Fails d (err f) = Fails-if _ _ _ (create_admin_password-Fails d) (
      Fails-lift _ λ e s h.
        of_err k req before h (left_out "failed to get admin password secret" (fault f) s refl))
  admin_password_got-Fails d (panic p) = Fails-lift _ λ e s h. absurd (cc h)
  admin_password_got-Fails d unfinished = Fails-lift _ λ e s h. absurd (cc h)

  ensure_admin_password-Fails :
      (d : LdapDirectory) → Fails (Reported k req before) (ensure_admin_password k d)
  unfolding ensure_admin_password
  ensure_admin_password-Fails d = Fails->>= _ _ (Fails-attempt _) (admin_password_got-Fails d)

  reconcile_stateful_set-Fails :
      (d : LdapDirectory) (v : S)
      → Read k req before d v
      → Fails (Reported k req before) (reconcile_stateful_set k d)
  unfolding reconcile_stateful_set
  reconcile_stateful_set-Fails d v own =
      Fails->>= _ _ (or_fail-Fails k req before d v own _ _ _)
        λ sts. or_fail-Fails k req before d v own _ _ _

  reconcile_service-Fails :
      (d : LdapDirectory) (v : S)
      → Read k req before d v
      → Fails (Reported k req before) (reconcile_service k d)
  unfolding reconcile_service
  reconcile_service-Fails d v own =
      Fails->>= _ _ (or_fail-Fails k req before d v own _ _ _)
        λ svc. or_fail-Fails k req before d v own _ _ _

  publish-Fails : (d : LdapDirectory) → Fails (Reported k req before) (publish k d)
  unfolding publish mark_ready contains
  publish-Fails d =
      Fails-if _ _ _
        (Fails->>= _ _ (Fails-effect _)
          λ _. Fails->>= _ _ (left_out-call_or k req before _ _ refl) λ _. Fails-pure _)
        (Fails-pure _)

  check_ready-Fails :
      (d : LdapDirectory) (v : S)
      → Read k req before d v
      → Fails (Reported k req before) (check_ready k d)
  unfolding check_ready
  check_ready-Fails d v own =
      Fails->>= _ _ (or_fail-Fails k req before d v own _ _ _)
        λ b. search (wait_for-Fails k req before, publish-Fails, fails_rules)

  create_or_update-Fails :
      (d : LdapDirectory) (v : S)
      → Read k req before d v
      → Fails (Reported k req before) (create_or_update k d)
  unfolding create_or_update
  create_or_update-Fails d v own = search (
    ensure_admin_password-Fails, reconcile_stateful_set-Fails, reconcile_service-Fails,
    check_ready-Fails, fails_rules,
  )

  check_references-Fails :
      (d : LdapDirectory) (v : S)
      → Read k req before d v
      → Fails (Reported k req before) (check_references k d)
  unfolding check_references
  check_references-Fails d v own = search (
    fail_with-Fails k req before d v own,
    create_or_update-Fails,
    wait_for-Fails k req before,
    fails_rules,
  )

  found-Fails :
      (d : LdapDirectory) (v : S)
      → Read k req before d v
      → Fails (Reported k req before) (found k d)
  unfolding found
  found-Fails d v own =
      search (delete_stage-Fails k req before, check_references-Fails, fails_rules)

  got-Reported :
      (r : Result Fault LdapDirectory) (u t : S) (e : Error)
      → k.get req before ≡ (r, u)
      → got k r u ≡ (err e, t)
      → Reported k req before e t
  unfolding got lift pure
  got-Reported (ok d) u t e i h = elim (>>=-eq-err (ensure_finalizer k d) (found k) h) [
    | inl here ↦ (ensure_finalizer-Fails k req before d).after u t e here
    | inr (d', v, ensured, rest) ↦ (found-Fails d' v (d, u, i, ensured)).after v t e rest
  ]
  got-Reported (err f) u t e i h = by_kind f.not_found refl h
    where
      by_kind :
          (b : Bool)
          → f.not_found ≡ b
          → (if b then pure done else lift (err (fault f))) u ≡ (err e, t)
          → Reported k req before e t
      by_kind true missing h = absurd (cc h)
      by_kind false other h = subst (AtError (Reported k req before)) h (read f u i other)
  got-Reported (panic p) u t e i h = absurd (cc h)
  got-Reported unfinished u t e i h = absurd (cc h)

module _ {S : Type 0} (k : DirectoryKube S) (req : NamespacedName) where
  -- An error that `Reconcile` of a directory returns is one that reading the requested directory
  -- gave in the world before the call, other than that it is not there, or is wrapped in one of the
  -- eight texts of the finalizer, the admin password and the two other marks, or else the last that
  -- was done was to write it to the status of that directory, as a failure.
  pub reconcile-Reported :
      (s t : S) (e : Error) → reconcile k req s ≡ (err e, t) → Reported k req s e t
  unfolding reconcile attempt
  reconcile-Reported s t e h = elim (>>=-eq-err (attempt (k.get req)) (got k) h) [
    | inl here ↦ absurd (cc here)
    | inr (x, u, e', h') ↦ got-Reported k req s x u t e (ap attempted e') h'
  ]
    where
      attempted : Result Error (Result Fault LdapDirectory) × S → Result Fault LdapDirectory × S
      attempted (ok x, u) = (x, u)
      attempted (err e, u) = k.get req s
      attempted (panic p, u) = k.get req s
      attempted (unfinished, u) = k.get req s
