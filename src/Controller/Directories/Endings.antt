-- ===== src/Controller/Directories/Endings.antt =====
-- The stages of a call of the reconciler of directories that succeeds
-- (internal/controller/ldapdirectory_controller.go).
use openldap_operator.Base.{
  String, ◌≡◌, refl, ◌∙◌, ap, subst, inl, inr, Bool, true, false, not, if◌then◌else◌,
}
use openldap_operator.Go.{
  Fault, Error, fault, Result, ok, err, panic, unfinished, pure, lift, attempt, effect, ask, on_err,
  wrapf, ◌>>◌, ◌>>=◌,
}
use openldap_operator.Go.Calls.{>>=-eq-ok, call_or-eq-ok}
use openldap_operator.Go.Ensures.{
  Ensures, Ensures->>=, Ensures->>=_value, Ensures-if, Ensures-unless,
}
use openldap_operator.Api.{is_zero, LdapDirectory}
use openldap_operator.Controller.{NamespacedName, Outcome, EventType, normal, finalizer_name}
use openldap_operator.Controller.Marks.{done, is_ready}
use openldap_operator.Controller.Directories.Calls.{DirectoryKube}
use openldap_operator.Controller.Directories.Marks.{mark_pending, mark_ready, wait_for}
use openldap_operator.Controller.Directories.{
  delete_stage, ensure_finalizer, patch, is_stateful_set_ready, publish, check_ready,
  create_or_update, check_references, found, got, reconcile,
}
use openldap_operator.Controller.Directories.Settled.{
  Ended, FoundReady, Live, Read, gone, deleted, was_ready, became_ready, waits, fail_with-Ends,
  or_fail-eq-ok, is_stateful_set_ready-FoundReady,
}

module _ {S : Type 0} (k : DirectoryKube S) (req : NamespacedName) (before : S) where
  abbrev Returned : Result Error Outcome × S → Type 0
  Returned (ok r, t) = Ended k req before r t
  Returned (err e, t) = Unit
  Returned (panic p, t) = Unit
  Returned (unfinished, t) = Unit

  -- After the last statement, `return o, nil`.
  at_return :
      {o r : Outcome} {u t : S}
      → pure {E = Error} o u ≡ (ok r, t)
      → Ended k req before o u
      → Ended k req before r t
  unfolding pure
  at_return e h = subst Returned e h

  patch-world :
      (d : LdapDirectory) (change : LdapDirectory → Result Error LdapDirectory) (f : Error → Error)
      (v u : S) (d' : LdapDirectory)
      → patch k f d change v ≡ (ok d', u)
      → (k.create_or_patch d change v).1 ≡ u
  unfolding patch ask on_err lift
  patch-world d change f v u d' h =
      let (r, w, e, h') = >>=-eq-ok (ask (k.create_or_patch d change)) _ h in
      ap (λ p. p.1) e ∙ ap (λ p. p.1) h'

  wait_for-Ends :
      (d : LdapDirectory) (type : EventType) (reason text : String)
      → Live k req before d
      → Ensures (Ended k req before) (wait_for k d type reason text)
  unfolding wait_for mark_pending
  wait_for-Ends d type reason text live = Ensures->>= _ _ λ _.
      Ensures->>=_value _ _ λ s u t _ r e h. at_return h (waits d s u live (call_or-eq-ok _ _ e))

  mark_ready-Ended :
      (d : LdapDirectory) (s u v t : S) (r : Outcome)
      → Live k req before d
      → FoundReady k d s u
      → is_ready d.status.phase ≡ false
      → mark_ready k d (k.event d normal "Created" "Successfully created" u) ≡ (ok tt, v)
      → pure {E = Error} done v ≡ (ok r, t)
      → Ended k req before r t
  unfolding mark_ready
  mark_ready-Ended d s u v t r live found_ready unready e h =
      at_return h (became_ready d s u v live found_ready unready (call_or-eq-ok _ _ e))

  publish-Ended :
      (d : LdapDirectory) (s u t : S) (r : Outcome)
      → Live k req before d
      → FoundReady k d s u
      → publish k d u ≡ (ok r, t)
      → Ended k req before r t
  unfolding publish effect
  publish-Ended d s u t r live found_ready h = by_phase (is_ready d.status.phase) refl h
    where
      by_phase :
          (b : Bool)
          → is_ready d.status.phase ≡ b
          → (if not b
                then (effect (k.event d normal "Created" "Successfully created")
                    >> (mark_ready k d >> pure done))
                else pure done)
              u
            ≡ (ok r, t)
          → Ended k req before r t
      by_phase true e h = at_return h (was_ready d s u live found_ready e)
      by_phase false e h =
          let (_, w, e0, h0) = >>=-eq-ok (effect _) _ h in
          let (_, v, e1, h1) = >>=-eq-ok (mark_ready k d) _ h0 in
          mark_ready-Ended d s u v t r live found_ready e (ap (λ p. mark_ready k d p.1) e0 ∙ e1) h1

  checked-Ended :
      (d : LdapDirectory) (b : Bool) (s u t : S) (r : Outcome)
      → Live k req before d
      → is_stateful_set_ready k d s ≡ (ok b, u)
      → (if not b
            then wait_for k d normal "Pending" "Waiting for statefulset to become ready"
            else publish k d)
          u
        ≡ (ok r, t)
      → Ended k req before r t
  checked-Ended d true s u t r live e h =
      publish-Ended d s u t r live (is_stateful_set_ready-FoundReady k d s u e) h
  checked-Ended d false s u t r live e h = (wait_for-Ends d _ _ _ live).after u t r h

  check_ready-Ends :
      (d : LdapDirectory) → Live k req before d → Ensures (Ended k req before) (check_ready k d)
  unfolding check_ready
  check_ready-Ends d live = Ensures->>=_value _ _ λ s u t b r e h.
      checked-Ended d b s u t r live (or_fail-eq-ok k d _ _ (is_stateful_set_ready k d) e) h

  create_or_update-Ends :
      (d : LdapDirectory)
      → Live k req before d
      → Ensures (Ended k req before) (create_or_update k d)
  unfolding create_or_update
  create_or_update-Ends d live =
      Ensures->>= _ _ λ _. Ensures->>= _ _ λ _. Ensures->>= _ _ λ _. check_ready-Ends d live

  check_references-Ends :
      (d : LdapDirectory)
      → Live k req before d
      → Ensures (Ended k req before) (check_references k d)
  unfolding check_references
  check_references-Ends d live = Ensures->>= _ _ λ check.
      Ensures-unless check.error _ _ (λ f. fail_with-Ends k d _ _ _)
        (Ensures-if check.found _ _ (create_or_update-Ends d live) (wait_for-Ends d _ _ _ live))

  released :
      (d : LdapDirectory) (v t : S) (r : Outcome)
      → Read k req before d v
      → is_zero d.meta.deletion_timestamp ≡ false
      → delete_stage k d v ≡ (ok r, t)
      → Ended k req before r t
  unfolding delete_stage patch ask on_err lift
  released d v t r read going h = by_finalizer (k.contains_finalizer d finalizer_name) refl h
    where
      taken : LdapDirectory → Result Error LdapDirectory
      taken x = ok (k.remove_finalizer x finalizer_name)

      by_finalizer :
          (b : Bool)
          → k.contains_finalizer d finalizer_name ≡ b
          → (if b
                then (patch k (wrapf "failed to remove finalizer") d taken >>= λ _. pure done)
                else pure done)
              v
            ≡ (ok r, t)
          → Ended k req before r t
      by_finalizer false e h = at_return h (deleted d v v read going (inl (e, refl)))
      by_finalizer true e h =
          let (d', u, e', h') =
            >>=-eq-ok (patch k (wrapf "failed to remove finalizer") d taken) _ h in
          at_return h' (deleted d v u read going (inr (e, patch-world d taken _ v u d' e')))

  found-Ended :
      (d : LdapDirectory) (v t : S) (r : Outcome)
      → Read k req before d v
      → found k d v ≡ (ok r, t)
      → Ended k req before r t
  unfolding found
  found-Ended d v t r read h = by_timestamp (is_zero d.meta.deletion_timestamp) refl h
    where
      by_timestamp :
          (b : Bool)
          → is_zero d.meta.deletion_timestamp ≡ b
          → (if not b then delete_stage k d else check_references k d) v ≡ (ok r, t)
          → Ended k req before r t
      by_timestamp true e h = (check_references-Ends d (v, read, e)).after v t r h
      by_timestamp false e h = released d v t r read e h

  got-Ended :
      (x : Result Fault LdapDirectory) (u t : S) (r : Outcome)
      → k.get req before ≡ (x, u)
      → got k x u ≡ (ok r, t)
      → Ended k req before r t
  unfolding got lift
  got-Ended (ok d) u t r e h =
      let (d', v, e', h') = >>=-eq-ok (ensure_finalizer k d) (found k) h in
      found-Ended d' v t r (d, u, e, e') h'
  got-Ended (err f) u t r e h = by_kind f.not_found refl h
    where
      by_kind :
          (b : Bool)
          → f.not_found ≡ b
          → (if b then pure done else lift (err (fault f))) u ≡ (ok r, t)
          → Ended k req before r t
      by_kind true missing h = at_return h (gone f u e missing)
      by_kind false other h = absurd (cc h)
  got-Ended (panic p) u t r e h = absurd (cc h)
  got-Ended unfinished u t r e h = absurd (cc h)

module _ {S : Type 0} (k : DirectoryKube S) (req : NamespacedName) where
  -- A `Reconcile` of a directory that succeeds ends in one of five ways: the directory that it asks
  -- for is not there in the world before it; or that directory, as it was read and given the
  -- finalizer, is being deleted, and the last that was done was to take the finalizer away, or it
  -- still had none; or it is not being deleted, and its stateful set was found with all its replicas
  -- ready, and it was marked as ready before, or was not, and the last that was done was to mark it
  -- so; or it is not being deleted, another attempt is asked for after the retry interval, and the
  -- last that was done was to write its pending status.
  pub reconcile-Ended : (s t : S) (r : Outcome) → reconcile k req s ≡ (ok r, t) → Ended k req s r t
  unfolding reconcile attempt
  reconcile-Ended s t r h =
      let (x, u, e, h') = >>=-eq-ok (attempt (k.get req)) (got k) h in
      got-Ended k req s x u t r (ap attempted e) h'
    where
      attempted : Result Error (Result Fault LdapDirectory) × S → Result Fault LdapDirectory × S
      attempted (ok x, u) = (x, u)
      attempted (err e, u) = k.get req s
      attempted (panic p, u) = k.get req s
      attempted (unfinished, u) = k.get req s
