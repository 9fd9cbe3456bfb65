-- ===== src/Ldap/Upsert.antt =====
-- The writes of internal/ldap/client.go: `CreateOrUpdateEntry` and the function for each type.
pub mod Requests
pub mod Modifications
pub mod Updates
pub mod Unneeded
pub mod Held
pub mod Stored
pub mod Created
pub mod Passwords
pub mod RoundTrip
use openldap_operator.Base.{
  String, ◌<>◌, ◌==◌, Bool, true, false, not, List, [], ◌∷◌, if◌then◌else◌,
}
use openldap_operator.Go.{
  Fault, is_error_with_code, Error, fault, wrapf, Result, ok, err, panic, unfinished, M, pure, lift,
  call_or, ◌>>=◌, ◌>>◌,
}
use openldap_operator.Ldap.Goldap.{
  Conn, SearchRequest, SearchEntry, Change, ModifyRequest, Goldap, invalid_credentials,
}
use openldap_operator.Ldap.{
  OrganizationalUnit, Group, User, Entry, organizational_unit, group, user,
}
use openldap_operator.Ldap.Client.{
  Client, with_connection_or, with_connection, search_reply, search_allowing_missing, reply_entries,
}
use Requests.{
  organizational_unit_search, group_search, user_search, organizational_unit_add,
  organizational_unit_modify, group_add, group_modify, user_add, user_modify,
}

-- What a bind with the user's own password says: whether the password has to be set. Any error
-- but `LDAPResultInvalidCredentials` ends the call.
unfoldable pub password_changed : Result Fault (Unit {0}) → Result Error Bool
unfolding is_error_with_code
password_changed (ok _) = ok false
password_changed (err f) =
    if is_error_with_code f invalid_credentials
    then ok true
    else err (wrapf "failed to verify password" (fault f))
password_changed (panic p) = panic p
password_changed unfinished = unfinished

module _ {S : Type 0} (g : Goldap S) where
  -- The entries that a search finds; a missing base gives none.
  unfoldable pub existing_entries : Conn → String → SearchRequest → M S Error (List SearchEntry)
  unfolding search_reply search_allowing_missing reply_entries
  existing_entries conn text request = do
    reply ← search_reply g conn request
    lift (search_allowing_missing (wrapf text) reply)
    lift (reply_entries reply)

  -- `if len(changes) > 0 { … }`
  unfoldable pub if_changed : List Change → M S Error (Unit {0}) → M S Error (Unit {0})
  if_changed [] m = pure tt
  if_changed (_ ∷ _) m = m

  unfoldable pub modify_if_changed : Conn → String → ModifyRequest → M S Error (Unit {0})
  unfolding if_changed
  modify_if_changed conn text request =
      if_changed request.changes (call_or text (g.modify conn request))

  unfoldable pub set_password : Conn → User → M S Error (Unit {0})
  set_password conn u = call_or "failed to set user password" (
      g.password_modify conn (record {
        user_identity = u.distinguished_name;
        old_password = "";
        new_password = u.password;
      }))

  unfoldable pub upsert_organizational_unit :
      Conn → OrganizationalUnit → List SearchEntry → M S Error Bool
  unfolding modify_if_changed
  upsert_organizational_unit conn ou [] = do
    call_or "failed to create organizational unit" (g.add conn (organizational_unit_add ou))
    pure true
  upsert_organizational_unit conn ou (entry ∷ _) = do
    modify_if_changed conn "failed to update organizational unit"
        (organizational_unit_modify ou entry)
    pure false

  -- `createOrUpdateOrganizationalUnit`
  unfoldable pub create_or_update_organizational_unit : Client → OrganizationalUnit → M S Error Bool
  unfolding with_connection_or existing_entries upsert_organizational_unit
  create_or_update_organizational_unit c ou = with_connection g c λ conn. do
    entries ←
        existing_entries conn "failed to search for organizational unit"
          (organizational_unit_search ou)
    upsert_organizational_unit conn ou entries

  module _ (set_equal : List String → List String → Bool) where
    unfoldable pub upsert_group : Conn → Group → List SearchEntry → M S Error Bool
    unfolding modify_if_changed
    upsert_group conn gr [] = do
      call_or "failed to create group" (g.add conn (group_add gr))
      pure true
    upsert_group conn gr (entry ∷ _) = do
      modify_if_changed conn "failed to update group" (group_modify set_equal gr entry)
      pure false

    -- `createOrUpdateGroup`
    unfoldable pub create_or_update_group : Client → Group → M S Error Bool
    unfolding with_connection_or existing_entries upsert_group
    create_or_update_group c gr = with_connection g c λ conn. do
      entries ← existing_entries conn "failed to search for group" (group_search gr)
      upsert_group conn gr entries

  unfoldable pub create_user : Conn → User → M S Error Bool
  unfolding set_password
  create_user conn u = do
    call_or "failed to create user" (g.add conn (user_add u))
    (if not (u.password == "") then set_password conn u else pure tt)
    pure true

  -- `connUser.Bind(user.DistinguishedName, user.Password)`: whether the password has to be set.
  unfoldable pub try_password : Conn → User → M S Error Bool
  unfolding password_changed
  try_password conn_user u s =
      let (r, s') = g.bind conn_user u.distinguished_name u.password s in (password_changed r, s')

  -- The password check: a bind as the user over a second connection.
  unfoldable pub check_password : Client → Conn → User → M S Error (Unit {0})
  unfolding with_connection_or try_password set_password
  check_password c conn u =
      with_connection_or g (wrapf "failed to connect to verify password") c λ conn_user. do
        changed ← try_password conn_user u
        if changed then set_password conn u else pure tt

  unfoldable pub upsert_user : Client → Conn → User → List SearchEntry → M S Error Bool
  unfolding create_user modify_if_changed check_password
  upsert_user c conn u [] = create_user conn u
  upsert_user c conn u (entry ∷ _) = do
    modify_if_changed conn "failed to update user" (user_modify u entry)
    check_password c conn u
    pure false

  -- `createOrUpdateUser`
  unfoldable pub create_or_update_user : Client → User → M S Error Bool
  unfolding with_connection_or existing_entries upsert_user
  create_or_update_user c u = with_connection g c λ conn. do
    entries ← existing_entries conn "failed to search for user" (user_search u)
    upsert_user c conn u entries

  -- `CreateOrUpdateEntry`
  unfoldable pub create_or_update_entry :
      (List String → List String → Bool) → Client → Entry → M S Error Bool
  unfolding create_or_update_organizational_unit create_or_update_group create_or_update_user
  create_or_update_entry set_equal c (organizational_unit ou) =
      create_or_update_organizational_unit c ou
  create_or_update_entry set_equal c (group gr) = create_or_update_group set_equal c gr
  create_or_update_entry set_equal c (user u) = create_or_update_user c u
