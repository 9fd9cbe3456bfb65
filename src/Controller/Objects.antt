-- ===== src/Controller/Objects.antt =====
-- internal/controller/ldapobject_controller.go: the reconciler of groups, organizational units and
-- users. `Reconcile` is cut into a function for each stage; a stage ends the call or goes on to the
-- next. Log lines are left out.
pub mod Lookups
pub mod Stages
pub mod Leading
pub mod Gate
pub mod Unready
pub mod Found
pub mod Requeue
pub mod Views
pub mod Calls
pub mod Justified
pub mod Single
pub mod Delivered
use openldap_operator.Base.{ℕ, String, Bool, true, false, not, Option, none, some, if◌then◌else◌}
use openldap_operator.Go.{
  Fault, Error, fault, errorf, wrapf, Result, ok, err, panic, unfinished, M, pure, lift, on_err,
  effect, ask, attempt, map_err, on_result, unless, ◌>>=◌, ◌>>◌,
}
use openldap_operator.Api.{
  is_zero, LdapDirectory, LdapObject, directory, ldap_object, Object, named, get_ldap_object_spec,
  get_phase, get_meta, resolve_directory, LocalObjectReference,
}
use openldap_operator.Api.Naming.{get_distinguished_name}
use openldap_operator.Api.References.{resolve_references}
use openldap_operator.Mapper.{map_to_entry}
use openldap_operator.Ldap.{Entry}
use openldap_operator.Ldap.Interface.{LdapClient, BuildClient}
use openldap_operator.Controller.{NamespacedName, Outcome, normal, warning, finalizer_name, Kube}
use openldap_operator.Controller.Marks.{
  done, is_ready, as_directory, as_ldap_object, ignore_err, mark_ready, mark_failed, fail_with,
  wait_for, with_value, add_finalizer, remove_finalizer,
}

module _ {S : Type 0} (k : Kube S) (build : BuildClient S) (fuel : ℕ) where
  -- A failed object: the event, the status, and no error for the caller.
  unfoldable pub give_up : LdapObject → String → String → Error → M S Error Outcome
  unfolding fail_with
  give_up obj event_text text e = do fail_with k obj event_text text e; pure done

  -- The last stage: the entry was written.
  unfoldable pub publish : LdapObject → Bool → M S Error Outcome
  unfolding mark_ready
  publish obj created =
      if created
      then (do
        effect (k.event obj normal "Created" "Successfully created")
        mark_ready k obj
        pure done)
      else pure done

  unfoldable pub write_entry : LdapClient S → LdapObject → Entry → M S Error Outcome
  unfolding on_result give_up publish
  write_entry client obj entry =
      on_result (client.create_or_update_entry entry)
        (give_up obj "Failed to create or update ldap entry"
          "failed to create or update ldap entry")
        (publish obj)

  unfoldable pub map_and_write : LdapClient S → String → LdapObject → M S Error Outcome
  unfolding on_result give_up write_entry
  map_and_write client dn obj =
      on_result (map_to_entry k.reader dn obj)
        (give_up obj "Failed to map to ldap entry" "failed to map to ldap entry")
        (write_entry client obj)

  -- `SetControllerReference` to the owner, a panic where the owner is nil.
  unfoldable pub own : Option Object → LdapObject → Result Error LdapObject
  own none o = panic "interface conversion"
  own (some owner) o = map_err fault (k.set_controller_reference owner o)

  -- From `setOwner` on. A failure is noted on the object as the failed call left it.
  unfoldable pub own_and_write :
      LdapClient S → String → Option Object → LdapObject → M S Error Outcome
  unfolding on_result give_up own map_and_write with_value
  own_and_write client dn owner obj = do
    r ← ask (k.create_or_patch obj (own owner))
    on_result (lift (with_value r.0 r.1))
        (give_up r.0 "Failed to set owner reference" "failed to set owner reference")
        (map_and_write client dn)

  -- An object that is being deleted: a failure to delete its entry does not hold it back.
  unfoldable pub delete_stage : LdapClient S → String → LdapObject → M S Error Outcome
  unfolding ignore_err remove_finalizer
  delete_stage client dn obj = do
    r ← attempt (client.delete_entry dn true)
    lift (ignore_err r)
    _ ← remove_finalizer k obj
    pure done

  -- `owner = directory`, or the parent where one is named.
  unfoldable pub owner_of : LdapObject → LdapDirectory → Option Object → Option Object
  owner_of obj d parent = elim (get_ldap_object_spec obj).parent_ref [
    | none ↦ some (named (directory d))
    | some _ ↦ parent
  ]

  unfoldable pub with_client : LdapObject → LdapDirectory → Option Object → M S Error Outcome
  unfolding delete_stage own_and_write owner_of
  with_client obj d parent = do
    client ← on_err (wrapf "failed to create directory client") (build d)
    dn ←
        on_err (wrapf "failed to get distinguished name")
          (get_distinguished_name k.reader fuel (ldap_object obj))
    (if not (is_zero (get_meta obj).deletion_timestamp)
        then delete_stage client dn obj
        else own_and_write client dn (owner_of obj d parent) obj)

  unfoldable pub bad_parent : LdapObject → M S Error Outcome
  unfolding mark_failed
  bad_parent obj = do
    let e = errorf "parent is not an ldap object"
    effect (k.event obj warning "Failed" "Parent is not an ldap object")
    mark_failed k obj e
    lift (err e)

  -- A parent, with what it is as an `api.LDAPObject`.
  unfoldable pub parent_stage :
      LdapObject → LdapDirectory → Object → Option LdapObject → M S Error Outcome
  unfolding wait_for with_client bad_parent
  parent_stage obj d parent none = bad_parent obj
  parent_stage obj d parent (some p) =
      if not (is_ready (get_phase p))
      then wait_for k obj "Referenced parent object is not ready"
      else with_client obj d (some parent)

  -- `if parent != nil { … }`
  unfoldable pub check_parent : LdapObject → LdapDirectory → Option Object → M S Error Outcome
  unfolding parent_stage as_ldap_object
  check_parent obj d none = with_client obj d none
  check_parent obj d (some parent) = parent_stage obj d parent (as_ldap_object parent)

  unfoldable pub resolve_parent :
      LdapObject → LdapDirectory → Option LocalObjectReference → M S Error Outcome
  unfolding give_up check_parent unless
  resolve_parent obj d none = check_parent obj d none
  resolve_parent obj d (some ref) = do
    res ← ask (k.reader.resolve_local_object ref (named (ldap_object obj)))
    unless res.error
        (λ f.
          give_up obj "Failed to resolve parent reference" "failed to resolve parent reference"
            (fault f))
        (check_parent obj d res.object)

  unfoldable pub with_directory : LdapObject → LdapDirectory → M S Error Outcome
  unfolding wait_for resolve_parent
  with_directory obj d =
      if not (is_ready d.status.phase)
      then wait_for k obj "Referenced directory is not ready"
      else resolve_parent obj d (get_ldap_object_spec obj).parent_ref

  unfoldable pub find_directory : LdapObject → M S Error Outcome
  unfolding give_up with_directory as_directory resolve_directory unless
  find_directory obj = do
    res ← ask (
        resolve_directory k.reader (get_ldap_object_spec obj).directory_ref
          (named (ldap_object obj)))
    unless res.error
        (λ f.
          give_up obj "Failed to resolve directory reference"
            "failed to resolve directory reference" (fault f))
        (do d ← lift (as_directory res.object); with_directory obj d)

  -- Some reference has nothing behind it. An object that is being deleted is let go.
  unfoldable pub unresolved : LdapObject → M S Error Outcome
  unfolding remove_finalizer wait_for
  unresolved obj =
      if not (is_zero (get_meta obj).deletion_timestamp)
      then (do _ ← remove_finalizer k obj; pure done)
      else wait_for k obj "Not all references are resolvable"

  unfoldable pub references_failed : LdapObject → Fault → M S Error Outcome
  unfolding fail_with
  references_failed obj f = do
    fail_with k obj "Failed to resolve references" "failed to resolve references" (fault f)
    lift (err (wrapf "failed to resolve references" (fault f)))

  unfoldable pub check_references : LdapObject → M S Error Outcome
  unfolding unresolved references_failed find_directory resolve_references unless
  check_references obj = do
    check ← ask (resolve_references k.reader obj)
    unless check.error (references_failed obj)
        (if check.found then find_directory obj else unresolved obj)

  unfoldable pub ensure_finalizer : LdapObject → M S Error LdapObject
  unfolding add_finalizer
  ensure_finalizer obj =
      if not (k.contains_finalizer obj finalizer_name) then add_finalizer k obj else pure obj

  -- What `Get` says: a missing object needs nothing more.
  unfoldable pub got : Result Fault LdapObject → M S Error Outcome
  unfolding ensure_finalizer check_references
  got (ok obj) = do obj' ← ensure_finalizer obj; check_references obj'
  got (err f) = if f.not_found then pure done else lift (err (fault f))
  got (panic p) = lift (panic p)
  got unfinished = lift unfinished

  -- `Reconcile`
  unfoldable pub reconcile : NamespacedName → M S Error Outcome
  unfolding got
  reconcile req = do r ← attempt (k.get req); got r
