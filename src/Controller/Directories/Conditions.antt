-- ===== src/Controller/Directories/Conditions.antt =====
-- The conditions of a directory's status under the three marks of
-- internal/controller/ldapdirectory_controller.go.
use openldap_operator.Base.{
  String, ◌==◌, eq_refl, ◌≡◌, refl, sym, ◌∙◌, ap, subst, ◌⊎◌, Bool, true, false, List, [], ◌∷◌,
  none, inr, if◌then◌else◌,
}
use openldap_operator.Api.{Phase, pending, ready, failed, Condition, LdapDirectory}
use openldap_operator.Go.{Fault, Error, fault, ok, err, ◌>>=◌}
use openldap_operator.Controller.Directories.Calls.{DirectoryKube}
use openldap_operator.Controller.Directories.Marks.{
  condition_of, with_phase, write_pending, write_ready, write_failed, mark_pending, mark_ready,
  mark_failed,
}

-- `meta.IsStatusConditionTrue`: what the first condition of a type says.
abbrev pub is_true : List Condition → String → Bool
is_true [] type = false
is_true (c ∷ cs) type = if c.type == type then c.is_true else is_true cs type

-- The phase that goes with the condition of a mark.
abbrev pub phase_condition : Phase → String
phase_condition Phase.unset = ""
phase_condition pending = "Pending"
phase_condition ready = "Ready"
phase_condition failed = "Failed"

-- A directory has no phase yet, or the condition of its phase is true.
abbrev pub HasCondition : LdapDirectory → Type 0
HasCondition d =
    (d.status.phase ≡ Phase.unset)
    ⊎ (is_true d.status.conditions (phase_condition d.status.phase) ≡ true)

abbrev unanswered : Fault
unanswered = record { text = "no answer"; not_found = false; result_code = none }

-- A cluster whose world is one directory as it is stored: a write of its status applies the edit to
-- it, by the given SetStatusCondition. Nothing else is answered.
abbrev pub one_directory : {S : Type 0} → DirectoryKube S → DirectoryKube LdapDirectory
one_directory k = record {
  reader = record {
    resolve_object = λ ref o s. (record { object = none; found = false; error = none }, s);
    resolve_local_object = λ ref o s. (record { object = none; found = false; error = none }, s);
    resolve_secret = λ ref o s. (record { object = none; found = false; error = none }, s);
  };
  get = λ req s. (ok s, s);
  create_or_patch = λ d f s. ((d, err (fault unanswered)), s);
  update_status = λ key d f s. (ok tt, f s);
  set_status_condition = k.set_status_condition;
  event = λ d t r m s. s;
  contains_finalizer = k.contains_finalizer;
  add_finalizer = k.add_finalizer;
  remove_finalizer = k.remove_finalizer;
  get_secret = λ key s. (err unanswered, s);
  generate_password = λ n s. (err unanswered, s);
  set_secret_owner = k.set_secret_owner;
  create_secret = λ x s. (err unanswered, s);
  set_owner_reference = k.set_owner_reference;
  set_controller_reference = k.set_controller_reference;
  apply_stateful_set = λ x s. (err unanswered, s);
  apply_service = λ x s. (err unanswered, s);
  get_stateful_set = λ key s. (err unanswered, s);
}

module _ {S : Type 0} (k : DirectoryKube S) where
  -- What a sequence of the code's marks makes of a stored directory, each written for some directory
  -- `o` that a call of `Reconcile` holds, while the specification and the metadata of the stored one
  -- may change in between.
  pub data Marked : LdapDirectory → LdapDirectory → Type 0 where
    unmarked : (d : LdapDirectory) → Marked d d
    edited : (d d' d'' : LdapDirectory) → Marked d d' → d''.status ≡ d'.status → Marked d d''
    marked_pending :
        (d d' o : LdapDirectory) → Marked d d' → Marked d (mark_pending (one_directory k) o d').1
    marked_ready :
        (d d' o : LdapDirectory) → Marked d d' → Marked d (mark_ready (one_directory k) o d').1
    marked_failed :
        (d d' o : LdapDirectory) (e : Error)
        → Marked d d'
        → Marked d (mark_failed (one_directory k) o e d').1

  -- `meta.SetStatusCondition` sets the condition of one type and leaves the others.
  abbrev pub SetsCondition : Type 0
  SetsCondition =
      (cs : List Condition) (c : Condition) (type : String)
      → is_true (k.set_status_condition cs c) type
        ≡ (if c.type == type then c.is_true else is_true cs type)

  module _ (sets : SetsCondition) where
    with_phase-true :
        (p : Phase) (type text t : String) (d : LdapDirectory)
        → is_true d.status.conditions t ≡ true
        → is_true (with_phase k p type text d).status.conditions t ≡ true
    unfolding with_phase condition_of
    with_phase-true p type text t d h =
        sets d.status.conditions (condition_of type text d) t ∙ by_type (type == t)
      where
        by_type : (b : Bool) → (if b then true else is_true d.status.conditions t) ≡ true
        by_type true = refl
        by_type false = h

    with_phase-sets :
        (p : Phase) (type text : String) (d : LdapDirectory)
        → is_true (with_phase k p type text d).status.conditions type ≡ true
    unfolding with_phase condition_of
    with_phase-sets p type text d =
        sets d.status.conditions (condition_of type text d) type
        ∙ ap (λ b. if b then true else is_true d.status.conditions type) (eq_refl type)

    -- If SetStatusCondition sets the condition of one type and leaves the others, then whatever
    -- marks are set, and however the directory is edited in between, a condition that was true once
    -- stays true: that of a phase which the directory has left, too.
    pub Marked-true :
        (d d' : LdapDirectory) (t : String)
        → Marked d d'
        → is_true d.status.conditions t ≡ true
        → is_true d'.status.conditions t ≡ true
    unfolding mark_pending mark_ready mark_failed write_pending write_ready write_failed with_phase
        ◌>>=◌
    Marked-true d d' t (unmarked _) h = h
    Marked-true d d' t (edited _ x _ m same) h =
        ap (λ s. is_true s.conditions t) same ∙ Marked-true d x t m h
    Marked-true d d' t (marked_pending _ x o m) h =
        with_phase-true pending _ _ t x (Marked-true d x t m h)
    Marked-true d d' t (marked_ready _ x o m) h =
        with_phase-true ready _ _ t x (Marked-true d x t m h)
    Marked-true d d' t (marked_failed _ x o e m) h =
        with_phase-true failed _ _ t x (Marked-true d x t m h)

    -- If SetStatusCondition sets the condition of one type and leaves the others, then it is an
    -- invariant of the three marks, and of edits that leave the status alone, that a directory has
    -- no phase yet, or the condition of its phase is true.
    pub Marked-HasCondition :
        (d d' : LdapDirectory) → Marked d d' → HasCondition d → HasCondition d'
    unfolding mark_pending mark_ready mark_failed write_pending write_ready write_failed with_phase
        ◌>>=◌
    Marked-HasCondition d d' (unmarked _) h = h
    Marked-HasCondition d d' (edited _ x _ m same) h =
        subst
          (λ s. (s.phase ≡ Phase.unset) ⊎ (is_true s.conditions (phase_condition s.phase) ≡ true))
          (sym same) (Marked-HasCondition d x m h)
    Marked-HasCondition d d' (marked_pending _ x o m) h = inr (with_phase-sets pending _ _ x)
    Marked-HasCondition d d' (marked_ready _ x o m) h = inr (with_phase-sets ready _ _ x)
    Marked-HasCondition d d' (marked_failed _ x o e m) h = inr (with_phase-sets failed _ _ x)
