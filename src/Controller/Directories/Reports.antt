-- ===== src/Controller/Directories/Reports.antt =====
-- The errors of the reconciler of directories, and the status that it leaves with them
-- (internal/controller/ldapdirectory_controller.go).
use openldap_operator.Base.{
  String, ◌≡◌, refl, ◌∙◌, ap, subst, inl, inr, true, false, List, [], ◌∷◌, contains,
}
use openldap_operator.Go.{
  Fault, Error, fault, wrapf, Result, ok, err, panic, unfinished, M, lift, attempt, call_or, on_err,
}
use openldap_operator.Go.Calls.{>>=-eq-ok}
use openldap_operator.Go.Fails.{
  Fails, >>=-eq-err, AtError, Fails-lift, Fails-call_or, Fails->>=, Fails-if, Fails-on_result,
  Fails-pure, Fails-ask, Fails-effect, Fails-attempt,
}
use openldap_operator.Api.{LdapDirectory}
use openldap_operator.Controller.{NamespacedName, EventType}
use openldap_operator.Controller.Marks.{ignore_err, with_value}
use openldap_operator.Controller.Directories.Calls.{DirectoryKube}
use openldap_operator.Controller.Directories.Settled.{Read}
use openldap_operator.Controller.Directories.Marks.{
  write_failed, mark_pending, mark_failed, fail_with, or_fail, wait_for,
}
use openldap_operator.Controller.Directories.{patch, ensure_finalizer, delete_stage}

-- The texts of the errors that come without a failed status.
abbrev pub unreported : List String
unreported =
    "failed to add finalizer" ∷ "failed to remove finalizer"
    ∷ "failed to generate random admin password"
    ∷ "failed to set owner reference on admin password secret"
    ∷ "failed to create admin password secret" ∷ "failed to get admin password secret"
    ∷ "failed to mark as pending" ∷ "failed to mark as ready" ∷ []

module _ {S : Type 0} (k : DirectoryKube S) (req : NamespacedName) (before : S) where
  -- An error that the read of the requested directory gave in the world before the call, as it is, or has one of the texts above, or was written
  -- to the status of the requested directory last.
  pub data Reported : Error → S → Type 0 where
    read :
        (f : Fault) (t : S)
        → k.get req before ≡ (err f, t)
        → f.not_found ≡ false
        → Reported (fault f) t
    left_out :
        (text : String) (e : Error) (t : S)
        → contains unreported text ≡ true
        → Reported (wrapf text e) t
    written :
        (d : LdapDirectory) (v : S) (e : Error) (s t : S)
        → Read k req before d v
        → (write_failed k e d s).1 ≡ t
        → Reported e t

  mark_failed-written :
      (d : LdapDirectory) (e : Error) (s t : S)
      → mark_failed k d e s ≡ (ok tt, t)
      → (write_failed k e d s).1 ≡ t
  unfolding mark_failed attempt lift
  mark_failed-written d e s t h =
      let (r, u, e', h') = >>=-eq-ok (attempt (write_failed k e d)) _ h in
      ap (λ p. p.1) e' ∙ ap (λ p. p.1) h'

  mark_failed-Fails : (d : LdapDirectory) (e : Error) → Fails Reported (mark_failed k d e)
  unfolding mark_failed ignore_err
  mark_failed-Fails d e = Fails->>= _ _ (Fails-attempt _) λ r. Fails-lift _ (ignored r)
    where
      ignored :
          (r : Result Fault (Unit {0})) (x : Error) (s : S) → ignore_err r ≡ err x → Reported x s
      ignored (ok _) x s h = absurd (cc h)
      ignored (err f) x s h = absurd (cc h)
      ignored (panic p) x s h = absurd (cc h)
      ignored unfinished x s h = absurd (cc h)

  pub fail_with-Fails :
      {A : Type 0} (d : LdapDirectory) (v : S)
      → Read k req before d v
      → (a b : String) (e : Error) → Fails {A = A} Reported (fail_with k d a b e)
  unfolding fail_with lift
  fail_with-Fails {A} d v own a b e = Fails->>= _ _ (Fails-effect _) λ _. record {
    after = λ s t x h. elim (>>=-eq-err (mark_failed k d (wrapf b e)) _ h) [
      | inl here ↦ (mark_failed-Fails d (wrapf b e)).after s t x here
      | inr (_, u, marked, last) ↦
          subst (AtError Reported) last
            (written d v (wrapf b e) s u own (mark_failed-written d (wrapf b e) s u marked))
    ];
  }

  pub left_out-call_or :
      {A : Type 0} (text : String) (m : M S Fault A)
      → contains unreported text ≡ true
      → Fails Reported (call_or text m)
  left_out-call_or text m h = Fails-call_or text m λ f t. left_out text (fault f) t h

  pub or_fail-Fails :
      {A : Type 0} (d : LdapDirectory) (v : S)
      → Read k req before d v
      → (a b : String) (m : M S Error A) → Fails Reported (or_fail k d a b m)
  unfolding or_fail
  or_fail-Fails d v own a b m =
      Fails-on_result m _ _ (fail_with-Fails d v own a b) (λ x. Fails-pure x)

  pub wait_for-Fails :
      (d : LdapDirectory) (t : EventType) (r m : String) → Fails Reported (wait_for k d t r m)
  unfolding wait_for mark_pending contains
  wait_for-Fails d t r m =
      Fails->>= _ _ (Fails-effect _)
        λ _. Fails->>= _ _ (left_out-call_or _ _ refl) λ _. Fails-pure _

  patch-Fails :
      (text : String) (d : LdapDirectory) (change : LdapDirectory → Result Error LdapDirectory)
      → contains unreported text ≡ true
      → Fails Reported (patch k (wrapf text) d change)
  unfolding patch on_err lift
  patch-Fails text d change h =
      Fails->>= _ _ (Fails-ask _)
        λ r. record { after = λ s t e x. by_result (with_value r.0 r.1) s t e x }
    where
      by_result :
          (r : Result Error LdapDirectory) (s t : S) (e : Error)
          → on_err (wrapf text) (lift r) s ≡ (err e, t)
          → Reported e t
      by_result (ok x) s t e k = absurd (cc k)
      by_result (err x) s t e k = subst (AtError Reported) k (left_out text x s h)
      by_result (panic p) s t e k = absurd (cc k)
      by_result unfinished s t e k = absurd (cc k)

  pub ensure_finalizer-Fails : (d : LdapDirectory) → Fails Reported (ensure_finalizer k d)
  unfolding ensure_finalizer contains
  ensure_finalizer-Fails d = Fails-if _ _ _ (patch-Fails _ d _ refl) (Fails-pure d)

  pub delete_stage-Fails : (d : LdapDirectory) → Fails Reported (delete_stage k d)
  unfolding delete_stage contains
  delete_stage-Fails d =
      Fails-if _ _ _ (Fails->>= _ _ (patch-Fails _ d _ refl) λ _. Fails-pure _) (Fails-pure _)

  pub of_err :
      {A : Type 0} {x e : Error} {s : S}
      → ◌≡◌ {A = Result Error A} (err x) (err e)
      → Reported x s
      → Reported e s
  of_err {s = s} h = subst (λ r. AtError Reported (r, s)) h
