-- ===== src/Controller/Objects/Requeue.antt =====
-- How a call of the object reconciler that succeeds may end.
use openldap_operator.Base.{
  ℕ, String, ◌≡◌, refl, ap, ◌∙◌, subst, Bool, true, false, not, if◌then◌else◌, Option, none, some,
}
use openldap_operator.Go.{
  Fault, Error, fault, message, Result, ok, err, panic, unfinished, pure, lift, attempt, effect,
  on_err, wrapf,
}
use openldap_operator.Go.Calls.{call_or-eq-ok, >>=-eq-ok, on_err-value}
use openldap_operator.Controller.Objects.Leading.{false_of_not}
use openldap_operator.Go.Ensures.{
  Ensures, ensures_rules, Ensures->>=, Ensures->>=_value, Ensures-pure, Ensures-if,
  Ensures-if_value, Ensures-on_result_value, Ensures-on_result, Ensures-unless,
}
use openldap_operator.Api.{
  is_zero, get_meta, pending, ready, failed, LdapDirectory, LdapObject, Object,
  LocalObjectReference,
}
use openldap_operator.Ldap.{Entry}
use openldap_operator.Ldap.Interface.{LdapClient, BuildClient}
use openldap_operator.Controller.{NamespacedName, Outcome, normal, Kube}
use openldap_operator.Controller.Marks.{
  done, retry, write_status, mark_pending, mark_ready, mark_failed, fail_with, wait_for,
}
use openldap_operator.Controller.Objects.{
  give_up, publish, write_entry, map_and_write, own_and_write, delete_stage, with_client,
  bad_parent, parent_stage, resolve_parent, with_directory, find_directory, unresolved,
  references_failed, check_references, got, reconcile, ensure_finalizer,
}
use openldap_operator.Controller.Objects

-- The object that the request gives in the world before the call, with its finalizer.
abbrev pub Read :
    {S : Type 0} → Kube S → BuildClient S → ℕ → NamespacedName → S → LdapObject → Type 0
Read {S} k build fuel req before o =
    (stored : LdapObject) × (u : S) × (v : S) × (k.get req before ≡ (ok stored, u))
    × (ensure_finalizer k build fuel stored u ≡ (ok o, v))

-- Why a call of the reconciler that succeeds is over: the object of the request is not there; it is
-- being deleted; the last that was done was to write a failed status; the client of a directory
-- wrote an entry that was there, and this was the last; or it says that it created the entry, and
-- the last was to write a ready status. Or another attempt was asked for, and the last that was
-- done was to write its pending status.
pub data Settled {S : Type 0} (k : Kube S) (build : BuildClient S) (fuel : ℕ) (req : NamespacedName)
    (before : S) : Outcome → S → Type 0 where
  gone :
      (f : Fault) (t : S)
      → k.get req before ≡ (err f, t)
      → f.not_found ≡ true
      → Settled k build fuel req before done t
  deleting :
      (o : LdapObject) (t : S)
      → Read k build fuel req before o
      → is_zero (get_meta o).deletion_timestamp ≡ false
      → Settled k build fuel req before done t
  given_up :
      (o : LdapObject) (text : String) (s t : S)
      → (write_status k o failed text s).1 ≡ t
      → Settled k build fuel req before done t
  updated :
      (d : LdapDirectory) (c : LdapClient S) (e : Entry) (w s t : S)
      → (build d w).0 ≡ ok c
      → c.create_or_update_entry e s ≡ (ok false, t)
      → Settled k build fuel req before done t
  created :
      (d : LdapDirectory) (c : LdapClient S) (o : LdapObject) (e : Entry) (w s u t : S)
      → (build d w).0 ≡ ok c
      → c.create_or_update_entry e s ≡ (ok true, u)
      → write_status k o ready "" (k.event o normal "Created" "Successfully created" u) ≡ (ok tt, t)
      → Settled k build fuel req before done t
  waits :
      (o : LdapObject) (s t : S)
      → Read k build fuel req before o
      → write_status k o pending "" s ≡ (ok tt, t)
      → Settled k build fuel req before retry t

module _ {S : Type 0} (k : Kube S) (build : BuildClient S) (fuel : ℕ) (req : NamespacedName)
    (before : S) where
  abbrev Q : Outcome → S → Type 0
  Q = Settled k build fuel req before

  abbrev Returned : Result Error Outcome × S → Type 0
  Returned (ok r, t) = Q r t
  Returned (err e, t) = Unit
  Returned (panic p, t) = Unit
  Returned (unfinished, t) = Unit

  -- After the last statement, `return o, nil`.
  at_return : {o r : Outcome} {u t : S} → pure {E = Error} o u ≡ (ok r, t) → Q o u → Q r t
  unfolding pure
  at_return e h = subst Returned e h

  deleting-Ends :
      (o : LdapObject)
      → Read k build fuel req before o
      → is_zero (get_meta o).deletion_timestamp ≡ false
      → Ensures {E = Error} Q (pure done)
  deleting-Ends o read h = Ensures-pure done (λ s. deleting o s read h)

  wait_for-Ends :
      (o : LdapObject) (text : String)
      → Read k build fuel req before o
      → Ensures Q (wait_for k o text)
  unfolding wait_for mark_pending
  wait_for-Ends o text read = Ensures->>= _ _ λ _. Ensures->>=_value _ _ λ s u t b r e h.
      at_return h (
        waits o s u read
          (call_or-eq-ok "failed to mark as pending" (write_status k o pending "") e))

  fail_with-world :
      (o : LdapObject) (event_text text : String) (e : Error) (s u : S) (x : Unit {0})
      → fail_with k o event_text text e s ≡ (ok x, u)
      → (w : S) × (shown : String) × ((write_status k o failed shown w).1 ≡ u)
  unfolding fail_with mark_failed attempt lift
  fail_with-world o event_text text e s u x h =
      let (_, v, e0, h0) = >>=-eq-ok (effect _) _ h in
      let (r, w, e1, h1) =
        >>=-eq-ok (attempt (write_status k o failed (message (wrapf text e)))) _ h0 in
      (v, message (wrapf text e), ap (λ p. p.1) e1 ∙ ap (λ p. p.1) h1)

  give_up-Ends :
      (o : LdapObject) (event_text text : String) (e : Error)
      → Ensures Q (give_up k build fuel o event_text text e)
  unfolding give_up
  give_up-Ends o event_text text e = Ensures->>=_value _ _ λ s u t x r h h'.
      let (w, shown, is) = fail_with-world o event_text text e s u x h in
      at_return h' (given_up o shown w u is)

  published :
      (d : LdapDirectory) (c : LdapClient S) (o : LdapObject) (e : Entry) (w s u t : S) (b : Bool)
      (r : Outcome)
      → (build d w).0 ≡ ok c
      → c.create_or_update_entry e s ≡ (ok b, u)
      → publish k build fuel o b u ≡ (ok r, t)
      → Q r t
  unfolding publish mark_ready effect
  published d c o e w s u t false r built wrote h = at_return h (updated d c e w s u built wrote)
  published d c o e w s u t true r built wrote h =
      let (_, v, e0, h0) = >>=-eq-ok (effect _) _ h in
      let (_, x, e1, h1) = >>=-eq-ok (mark_ready k o) _ h0 in
      at_return h1 (
        created d c o e w s u x built wrote
          (call_or-eq-ok _ _ (ap (λ p. mark_ready k o p.1) e0 ∙ e1)))

  write_entry-Ends :
      (d : LdapDirectory) (w : S) (c : LdapClient S) (o : LdapObject) (e : Entry)
      → (build d w).0 ≡ ok c
      → Ensures Q (write_entry k build fuel c o e)
  unfolding write_entry
  write_entry-Ends d w c o e built =
      Ensures-on_result_value (c.create_or_update_entry e) _ _ (give_up-Ends o _ _)
        (λ s u t b r wrote h. published d c o e w s u t b r built wrote h)

  map_and_write-Ends :
      (d : LdapDirectory) (w : S) (c : LdapClient S) (dn : String) (o : LdapObject)
      → (build d w).0 ≡ ok c
      → Ensures Q (map_and_write k build fuel c dn o)
  unfolding map_and_write
  map_and_write-Ends d w c dn o built =
      Ensures-on_result _ _ _ (give_up-Ends o _ _) (λ e. write_entry-Ends d w c o e built)

  own_and_write-Ends :
      (d : LdapDirectory) (w : S) (c : LdapClient S) (dn : String) (owner : Option Object)
      (o : LdapObject)
      → (build d w).0 ≡ ok c
      → Ensures Q (own_and_write k build fuel c dn owner o)
  unfolding own_and_write
  own_and_write-Ends d w c dn owner o built = Ensures->>= _ _ λ r.
      Ensures-on_result _ _ _ (give_up-Ends r.0 _ _) (λ o'. map_and_write-Ends d w c dn o' built)

  delete_stage-Ends :
      (c : LdapClient S) (dn : String) (o : LdapObject)
      → Read k build fuel req before o
      → is_zero (get_meta o).deletion_timestamp ≡ false
      → Ensures Q (delete_stage k build fuel c dn o)
  unfolding delete_stage
  delete_stage-Ends c dn o read h =
      Ensures->>= _ _ λ _. Ensures->>= _ _ λ _. Ensures->>= _ _ λ _. deleting-Ends o read h

  with_client-Ends :
      (o : LdapObject) (d : LdapDirectory) (parent : Option Object)
      → Read k build fuel req before o
      → Ensures Q (with_client k build fuel o d parent)
  unfolding with_client
  with_client-Ends o d parent read =
      Ensures->>=_value (on_err (wrapf "failed to create directory client") (build d)) _
        λ s u t c r e h.
          (Ensures->>= _ _ λ dn.
              Ensures-if_value (not (is_zero (get_meta o).deletion_timestamp)) _ _
                (λ gone. delete_stage-Ends c dn o read (false_of_not _ gone))
                (λ kept.
                  own_and_write-Ends d s c dn _ o
                    (on_err-value _ (build d) (ap (λ p. p.0) e)))).after
            u t r h

  parent_stage-Ends :
      (o : LdapObject) (d : LdapDirectory) (parent : Object) (p : Option LdapObject)
      → Read k build fuel req before o
      → Ensures Q (parent_stage k build fuel o d parent p)
  unfolding parent_stage bad_parent
  parent_stage-Ends o d parent none read = search ensures_rules
  parent_stage-Ends o d parent (some p) read =
      Ensures-if _ _ _ (wait_for-Ends o _ read) (with_client-Ends o d (some parent) read)

  check_parent-Ends :
      (o : LdapObject) (d : LdapDirectory) (parent : Option Object)
      → Read k build fuel req before o
      → Ensures Q (Objects.check_parent k build fuel o d parent)
  unfolding Objects.check_parent
  check_parent-Ends o d none read = with_client-Ends o d none read
  check_parent-Ends o d (some parent) read = parent_stage-Ends o d parent _ read

  resolve_parent-Ends :
      (o : LdapObject) (d : LdapDirectory) (ref : Option LocalObjectReference)
      → Read k build fuel req before o
      → Ensures Q (resolve_parent k build fuel o d ref)
  unfolding resolve_parent
  resolve_parent-Ends o d none read = check_parent-Ends o d none read
  resolve_parent-Ends o d (some ref) read = Ensures->>= _ _ λ res.
      Ensures-unless res.error _ _ (λ f. give_up-Ends o _ _ _)
        (check_parent-Ends o d res.object read)

  with_directory-Ends :
      (o : LdapObject) (d : LdapDirectory)
      → Read k build fuel req before o
      → Ensures Q (with_directory k build fuel o d)
  unfolding with_directory
  with_directory-Ends o d read =
      Ensures-if _ _ _ (wait_for-Ends o _ read) (resolve_parent-Ends o d _ read)

  find_directory-Ends :
      (o : LdapObject) → Read k build fuel req before o → Ensures Q (find_directory k build fuel o)
  unfolding find_directory
  find_directory-Ends o read = Ensures->>= _ _ λ res.
      Ensures-unless res.error _ _ (λ f. give_up-Ends o _ _ _)
        (Ensures->>= _ _ λ d. with_directory-Ends o d read)

  unresolved-Ends :
      (o : LdapObject) → Read k build fuel req before o → Ensures Q (unresolved k build fuel o)
  unfolding unresolved
  unresolved-Ends o read =
      Ensures-if_value (not (is_zero (get_meta o).deletion_timestamp)) _ _
        (λ gone. Ensures->>= _ _ λ _. deleting-Ends o read (false_of_not _ gone))
        (λ kept. wait_for-Ends o _ read)

  check_references-Ends :
      (o : LdapObject)
      → Read k build fuel req before o
      → Ensures Q (check_references k build fuel o)
  unfolding check_references references_failed
  check_references-Ends o read = Ensures->>= _ _ λ check.
      Ensures-unless check.error _ _ (λ f. search ensures_rules)
        (Ensures-if check.found _ _ (find_directory-Ends o read) (unresolved-Ends o read))

  got-Settled :
      (x : Result Fault LdapObject) (u t : S) (r : Outcome)
      → k.get req before ≡ (x, u)
      → got k build fuel x u ≡ (ok r, t)
      → Q r t
  unfolding got lift
  got-Settled (ok o) u t r e h =
      let (o', v, e', h') = >>=-eq-ok (ensure_finalizer k build fuel o) _ h in
      (check_references-Ends o' (o, u, v, e, e')).after v t r h'
  got-Settled (err f) u t r e h = by_kind f.not_found refl h
    where
      by_kind :
          (b : Bool)
          → f.not_found ≡ b
          → (if b then pure done else lift (err (fault f))) u ≡ (ok r, t)
          → Q r t
      by_kind true missing h = at_return h (gone f u e missing)
      by_kind false other h = absurd (cc h)
  got-Settled (panic p) u t r e h = absurd (cc h)
  got-Settled unfinished u t r e h = absurd (cc h)

module _ {S : Type 0} (k : Kube S) (build : BuildClient S) (fuel : ℕ) where
  -- A `Reconcile` of an object that succeeds ends in one of six ways: the object that it asks for is
  -- not there in the world before it; that object, as it was read and given the finalizer, is being
  -- deleted; the last that was done was to write a failed status; a client that was built wrote an
  -- entry and says that it did not create it, and this was the last that was done; it says that it
  -- created the entry, and the last that was done, after an event, was to write a ready status; or
  -- another attempt is asked for after the retry interval, and the last that was done was to write the
  -- pending status of the object that was read.
  pub reconcile-Settled :
      (req : NamespacedName) (s t : S) (r : Outcome)
      → reconcile k build fuel req s ≡ (ok r, t)
      → Settled k build fuel req s r t
  unfolding reconcile attempt
  reconcile-Settled req s t r h =
      let (x, u, e, h') = >>=-eq-ok (attempt (k.get req)) (got k build fuel) h in
      got-Settled k build fuel req s x u t r (ap attempted e) h'
    where
      attempted : Result Error (Result Fault LdapObject) × S → Result Fault LdapObject × S
      attempted (ok x, u) = (x, u)
      attempted (err e, u) = k.get req s
      attempted (panic p, u) = k.get req s
      attempted (unfinished, u) = k.get req s
