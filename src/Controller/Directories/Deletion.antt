-- ===== src/Controller/Directories/Deletion.antt =====
-- A directory that is being deleted, as its reconciler handles it
-- (internal/controller/ldapdirectory_controller.go).
use openldap_operator.Base.{◌≡◌, refl, ◌∙◌, subst, Bool, true, false, not, if◌then◌else◌}
use openldap_operator.Go.{
  Fault, Error, Result, ok, err, panic, unfinished, pure, attempt, map_err, wrapf, ◌>>=◌,
}
use openldap_operator.Go.Preserves.{
  Preserves, preserves_rules, Preserves->>=_value, Preserves-attempt,
}
use openldap_operator.Api.{is_zero, LdapDirectory}
use openldap_operator.Controller.{NamespacedName, finalizer_name}
use openldap_operator.Controller.Marks.{with_value}
use openldap_operator.Controller.Directories.Calls.{DirectoryKube}
use openldap_operator.Controller.Directories.{
  patch, ensure_finalizer, delete_stage, found, got, reconcile,
}

abbrev pub IsDeleting : LdapDirectory → Type 0
IsDeleting d = is_zero d.meta.deletion_timestamp ≡ false

-- The calls that read and patch a directory leave what `view` sees of the world as it is, and every
-- directory is being deleted.
pub record Deletes {S V : Type 0} (k : DirectoryKube S) (view : S → V) : Type 0 where
  pub get : (v : V) (req : NamespacedName) → Preserves (λ s. view s ≡ v) (k.get req)
  pub create_or_patch :
      (v : V) (d : LdapDirectory) (f : LdapDirectory → Result Error LdapDirectory) (s : S)
      → view s ≡ v
      → view (k.create_or_patch d f s).1 ≡ v
  pub deleting :
      (req : NamespacedName) (s : S) (d : LdapDirectory) → (k.get req s).0 ≡ ok d → IsDeleting d
  pub stays :
      (d : LdapDirectory) (f : LdapDirectory → Result Error LdapDirectory) (s : S)
      → IsDeleting d
      → IsDeleting (k.create_or_patch d f s).0.0

module _ {S : Type 0} (k : DirectoryKube S) where
  -- What `CreateOrPatch` leaves of the directory is what the rest goes on with.
  patch-value :
      (f : Error → Error) (d d' : LdapDirectory)
      (change : LdapDirectory → Result Error LdapDirectory) (s : S)
      → (patch k f d change s).0 ≡ ok d'
      → (k.create_or_patch d change s).0.0 ≡ d'
  unfolding patch ◌>>=◌ with_value
  patch-value f d d' change s = by_result (k.create_or_patch d change s).0.1
    where
      by_result :
          {x : LdapDirectory} (r : Result Error (Unit {0}))
          → map_err f (with_value x r) ≡ ok d'
          → x ≡ d'
      by_result (ok _) e = cc
      by_result (err x) e = absurd (cc e)
      by_result (panic p) e = absurd (cc e)
      by_result unfinished e = absurd (cc e)

  module _ {V : Type 0} (view : S → V) (deletes : Deletes k view) where
    ensure_finalizer-IsDeleting :
        (d d' : LdapDirectory) (s : S)
        → IsDeleting d
        → (ensure_finalizer k d s).0 ≡ ok d'
        → IsDeleting d'
    unfolding ensure_finalizer pure
    ensure_finalizer-IsDeleting d d' s h = by_test (k.contains_finalizer d finalizer_name)
      where
        by_test :
            (b : Bool)
            → ((if not b
                  then patch k
                      (wrapf "failed to add finalizer")
                      d
                      (λ x. ok (k.add_finalizer x finalizer_name))
                  else pure d)
                s).0
              ≡ ok d'
            → IsDeleting d'
        by_test false e = subst IsDeleting (patch-value _ d d' _ s e) (deletes.stays d _ s h)
        by_test true e = subst IsDeleting (same e) h
          where
            same :
                {x : LdapDirectory} → ◌≡◌ {A = Result Error LdapDirectory} (ok x) (ok d') → x ≡ d'
            same e = cc

    patch-view :
        (v : V) (f : Error → Error) (d : LdapDirectory)
        (change : LdapDirectory → Result Error LdapDirectory)
        → Preserves (λ s. view s ≡ v) (patch k f d change)
    unfolding patch
    patch-view v f d change = search (deletes.create_or_patch, preserves_rules)

    delete_stage-view : (v : V) (d : LdapDirectory) → Preserves (λ s. view s ≡ v) (delete_stage k d)
    unfolding delete_stage
    delete_stage-view v d = search (patch-view, preserves_rules)

    found-view :
        (v : V) (d : LdapDirectory) → IsDeleting d → Preserves (λ s. view s ≡ v) (found k d)
    unfolding found
    found-view v d h = rw h (delete_stage-view v d)

    ensure_finalizer-view :
        (v : V) (d : LdapDirectory) → Preserves (λ s. view s ≡ v) (ensure_finalizer k d)
    unfolding ensure_finalizer
    ensure_finalizer-view v d = search (patch-view, preserves_rules)

    got-view :
        (v : V) (r : Result Fault LdapDirectory)
        → ((d : LdapDirectory) → r ≡ ok d → IsDeleting d)
        → Preserves (λ s. view s ≡ v) (got k r)
    unfolding got
    got-view v (ok d) h =
        Preserves->>=_value _ _ (ensure_finalizer-view v d)
          λ s d' e. found-view v d' (ensure_finalizer-IsDeleting d d' s (h d refl) e)
    got-view v (err f) h = search preserves_rules
    got-view v (panic p) h = search preserves_rules
    got-view v unfinished h = search preserves_rules

    -- Suppose that every directory is being deleted, and stays so where it is patched, and that to
    -- read and patch a directory changes nothing that `view` sees, such as the secrets, the stateful
    -- sets, the services and the statuses. Then `Reconcile` changes nothing that `view` sees, for
    -- every request and in every state.
    pub reconcile-deleted : (req : NamespacedName) (s : S) → view (reconcile k req s).1 ≡ view s
    unfolding reconcile attempt
    reconcile-deleted req s =
        (Preserves->>=_value (attempt (k.get req)) (got k)
            (Preserves-attempt _ (deletes.get (view s) req))
            λ t r e. got-view (view s) r λ d e'. deletes.deleting req t d (attempted e ∙ e')).at
          s refl
      where
        attempted :
            {x y : Result Fault LdapDirectory}
            → ◌≡◌ {A = Result Error (Result Fault LdapDirectory)} (ok x) (ok y)
            → x ≡ y
        attempted e = cc
