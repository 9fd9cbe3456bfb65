-- ===== src/Controller/Directories/Settled.antt =====
-- How a call of the reconciler of directories that succeeds may end
-- (internal/controller/ldapdirectory_controller.go).
use openldap_operator.Base.{String, ◌≡◌, ◌⊎◌, ap, subst, true, false}
use openldap_operator.Go.{
  Fault, Error, Result, ok, err, panic, unfinished, M, pure, lift, call_or, on_result,
}
use openldap_operator.Go.Calls.{>>=-eq-ok, call_or-eq-ok}
use openldap_operator.Go.Ensures.{Ensures, ensures_rules}
use openldap_operator.Api.{is_zero, LdapDirectory}
use openldap_operator.Controller.{NamespacedName, Outcome, normal, finalizer_name}
use openldap_operator.Controller.Marks.{done, retry, is_ready}
use openldap_operator.Controller.Directories.Resources.{StatefulSetState}
use openldap_operator.Controller.Directories.Templates.{resource_name}
use openldap_operator.Controller.Directories.Calls.{DirectoryKube}
use openldap_operator.Controller.Directories.Marks.{write_pending, write_ready, fail_with, or_fail}
use openldap_operator.Controller.Directories.{
  replicas_ready, ensure_finalizer, is_stateful_set_ready,
}

module _ {S : Type 0} (k : DirectoryKube S) where
  -- In the world `s`, the stateful set of `d` was found with all its replicas ready.
  abbrev pub FoundReady : LdapDirectory → S → S → Type 0
  FoundReady d s t =
      (sts : StatefulSetState) × (k.get_stateful_set
          (record { namespace = d.meta.namespace; name = resource_name d }) s
        ≡ (ok sts, t))
      × (replicas_ready sts ≡ ok true)

  module _ (req : NamespacedName) (before : S) where
    -- The directory that the request gives in the world before the call, with its finalizer, and the
    -- world after that.
    abbrev pub Read : LdapDirectory → S → Type 0
    Read d v =
        (stored : LdapDirectory) × (u : S) × (k.get req before ≡ (ok stored, u))
        × (ensure_finalizer k stored u ≡ (ok d, v))

    -- A directory without the finalizer is left as it is; from another it is taken away.
    abbrev pub Released : LdapDirectory → S → S → Type 0
    Released d v t =
        ((k.contains_finalizer d finalizer_name ≡ false) × (v ≡ t))
        ⊎ ((k.contains_finalizer d finalizer_name ≡ true)
            × ((k.create_or_patch d (λ x. ok (k.remove_finalizer x finalizer_name)) v).1 ≡ t))

    -- A directory of the request that is not being deleted.
    abbrev pub Live : LdapDirectory → Type 0
    Live d = (v : S) × Read d v × (is_zero d.meta.deletion_timestamp ≡ true)

    -- What a success means: the directory of the request is not there; or it is being deleted, and
    -- was let go; or its stateful set was found ready, and it was marked as ready before, or is now;
    -- or another attempt was asked for, and the world is as the write of its pending status left it.
    pub data Ended : Outcome → S → Type 0 where
      gone : (f : Fault) (t : S) → k.get req before ≡ (err f, t) → f.not_found ≡ true → Ended done t
      deleted :
          (d : LdapDirectory) (v t : S)
          → Read d v
          → is_zero d.meta.deletion_timestamp ≡ false
          → Released d v t
          → Ended done t
      was_ready :
          (d : LdapDirectory) (s t : S)
          → Live d
          → FoundReady d s t
          → is_ready d.status.phase ≡ true
          → Ended done t
      became_ready :
          (d : LdapDirectory) (s u t : S)
          → Live d
          → FoundReady d s u
          → is_ready d.status.phase ≡ false
          → write_ready k d (k.event d normal "Created" "Successfully created" u) ≡ (ok tt, t)
          → Ended done t
      waits :
          (d : LdapDirectory) (s t : S) → Live d → write_pending k d s ≡ (ok tt, t) → Ended retry t

  never :
      {A : Type 0} (d : LdapDirectory) (event_text text : String) (e : Error)
      → Ensures {A = A} (λ _ _. ⊥) (fail_with k d event_text text e)
  unfolding fail_with
  never d event_text text e = search ensures_rules

  pub fail_with-Ends :
      {A : Type 0} {Q : A → S → Type 0} (d : LdapDirectory) (event_text text : String) (e : Error)
      → Ensures Q (fail_with k d event_text text e)
  fail_with-Ends d event_text text e = record {
    after = λ s t a h. absurd ((never d event_text text e).after s t a h);
  }

  -- A stage that goes on is one that succeeded.
  pub or_fail-eq-ok :
      {A : Type 0} (d : LdapDirectory) (event_text text : String) (m : M S Error A) {s t : S}
      {a : A}
      → or_fail k d event_text text m s ≡ (ok a, t)
      → m s ≡ (ok a, t)
  unfolding or_fail on_result pure
  or_fail-eq-ok {A} d event_text text m {s} {t} {a} h = go (m s) h
    where
      go :
          (r : Result Error A × S)
          → or_fail k d event_text text (λ _. r) s ≡ (ok a, t)
          → r ≡ (ok a, t)
      go (ok b, u) e = e
      go (err x, u) e = absurd ((never d event_text text x).after u t a e)
      go (panic p, u) e = absurd (cc e)
      go (unfinished, u) e = absurd (cc e)

  pub is_stateful_set_ready-FoundReady :
      (d : LdapDirectory) (s t : S) → is_stateful_set_ready k d s ≡ (ok true, t) → FoundReady d s t
  unfolding is_stateful_set_ready lift
  is_stateful_set_ready-FoundReady d s t h =
      let (sts, u, e, rest) = >>=-eq-ok (call_or _ _) _ h in
      let here : u ≡ t = ap (λ p. p.1) rest in
      (
        sts,
        subst
            (λ w.
              k.get_stateful_set (record { namespace = d.meta.namespace; name = resource_name d }) s
              ≡ (ok sts, w))
            here (call_or-eq-ok _ _ e),
        ap (λ p. p.0) rest,
      )
