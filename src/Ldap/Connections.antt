-- ===== src/Ldap/Connections.antt =====
-- The connections that are open, before and after the client writes or deletes.
use openldap_operator.Base.{ℕ, zero, suc, true, String, Bool, List, [], ◌∷◌}
use openldap_operator.Go.{Error, M}
use openldap_operator.Go.Calls.{Keeps, keeps_rules, Keeps-pure, Keeps-lift}
use openldap_operator.Ldap.{
  User, Group, OrganizationalUnit, Entry, organizational_unit, group, user,
}
use openldap_operator.Ldap.Goldap.{Conn, SearchRequest, SearchEntry, ModifyRequest, Change, Goldap}
use openldap_operator.Ldap.Client.{Client}
use openldap_operator.Ldap.Client.Connections.{
  ShowsOpened, Admits, with_connection-Keeps, search_reply-Keeps,
}
use openldap_operator.Ldap.Upsert.{
  existing_entries, if_changed, modify_if_changed, set_password, try_password, check_password,
  upsert_organizational_unit, upsert_group, create_user, upsert_user, create_or_update_entry,
}
use openldap_operator.Ldap.Delete.{delete_one, delete_children, delete_entry}

module _ {S : Type 0} (g : Goldap S) (opened : S → List Conn) (shows : ShowsOpened g opened)
    (c : Client) (admits : Admits g c) where
  existing_entries-Keeps :
      (conn : Conn) (text : String) (q : SearchRequest)
      → Keeps opened (existing_entries g conn text q)
  unfolding existing_entries
  existing_entries-Keeps conn text q =
      search (keeps_rules, search_reply-Keeps g opened shows c admits)

  if_changed-Keeps :
      (cs : List Change) (m : M S Error (Unit {0}))
      → Keeps opened m
      → Keeps opened (if_changed g cs m)
  unfolding if_changed
  if_changed-Keeps [] m h = Keeps-pure tt
  if_changed-Keeps (_ ∷ _) m h = h

  modify-Keeps :
      (conn : Conn) (text : String) (q : ModifyRequest)
      → Keeps opened (modify_if_changed g conn text q)
  unfolding modify_if_changed
  modify-Keeps conn text q = search (if_changed-Keeps, shows.modify_same, keeps_rules)

  set_password-Keeps : (conn : Conn) (u : User) → Keeps opened (set_password g conn u)
  unfolding set_password
  set_password-Keeps conn u = search (keeps_rules, shows.password_modify_same)

  try_password-Keeps : (conn : Conn) (u : User) → Keeps opened (try_password g conn u)
  unfolding try_password
  try_password-Keeps conn u = record {
    same = λ s. (shows.bind_same conn u.distinguished_name u.password).same s;
  }

  check_password-Keeps : (conn : Conn) (u : User) → Keeps opened (check_password g c conn u)
  unfolding check_password
  check_password-Keeps conn u = search (
    keeps_rules,
    try_password-Keeps,
    set_password-Keeps,
    with_connection-Keeps g opened shows c admits,
  )

  upsert_ou-Keeps :
      (conn : Conn) (ou : OrganizationalUnit) (es : List SearchEntry)
      → Keeps opened (upsert_organizational_unit g conn ou es)
  unfolding upsert_organizational_unit
  upsert_ou-Keeps conn ou [] = search (keeps_rules, shows.add_same)
  upsert_ou-Keeps conn ou (e ∷ es) = search (keeps_rules, modify-Keeps)

  upsert_group-Keeps :
      (set_equal : List String → List String → Bool) (conn : Conn) (gr : Group)
      (es : List SearchEntry)
      → Keeps opened (upsert_group g set_equal conn gr es)
  unfolding upsert_group
  upsert_group-Keeps set_equal conn gr [] = search (keeps_rules, shows.add_same)
  upsert_group-Keeps set_equal conn gr (e ∷ es) = search (keeps_rules, modify-Keeps)

  upsert_user-Keeps :
      (conn : Conn) (u : User) (es : List SearchEntry) → Keeps opened (upsert_user g c conn u es)
  unfolding upsert_user create_user
  upsert_user-Keeps conn u [] = search (keeps_rules, shows.add_same, set_password-Keeps)
  upsert_user-Keeps conn u (e ∷ es) = search (keeps_rules, modify-Keeps, check_password-Keeps)

  -- In a directory that lets the administrator in, `CreateOrUpdateEntry` leaves open the very
  -- connections that were open before, however it ends.
  pub create_or_update_entry-Keeps :
      (set_equal : List String → List String → Bool) (e : Entry)
      → Keeps opened (create_or_update_entry g set_equal c e)
  unfolding create_or_update_entry
  create_or_update_entry-Keeps set_equal (organizational_unit ou) = search (
    existing_entries-Keeps,
    upsert_ou-Keeps,
    keeps_rules,
    with_connection-Keeps g opened shows c admits,
  )
  create_or_update_entry-Keeps set_equal (group gr) = search (
    existing_entries-Keeps,
    upsert_group-Keeps,
    keeps_rules,
    with_connection-Keeps g opened shows c admits,
  )
  create_or_update_entry-Keeps set_equal (user u) = search (
    existing_entries-Keeps,
    upsert_user-Keeps,
    keeps_rules,
    with_connection-Keeps g opened shows c admits,
  )

  delete_one-Keeps : (conn : Conn) (dn : String) → Keeps opened (delete_one g conn dn)
  unfolding delete_one
  delete_one-Keeps conn dn = record { same = λ s. (shows.del_same conn dn).same s }

  delete_children-Keeps :
      (rec : String → M S Error (Unit {0})) (conn : Conn) (dn : String)
      → ((child : String) → Keeps opened (rec child))
      → Keeps opened (delete_children g rec conn dn)
  unfolding delete_children
  delete_children-Keeps rec conn dn h =
      search (h, search_reply-Keeps g opened shows c admits, keeps_rules)

  -- In a directory that lets the administrator in, `DeleteEntry` leaves open the very connections
  -- that were open before, however it ends, with its recursive calls.
  pub delete_entry-Keeps :
      (fuel : ℕ) (dn : String) (cascading : Bool)
      → Keeps opened (delete_entry g fuel c dn cascading)
  unfolding delete_entry
  delete_entry-Keeps zero dn cascading = Keeps-lift _
  delete_entry-Keeps (suc fuel) dn cascading = search (
    delete_children-Keeps,
    delete_one-Keeps,
    λ (child : String). delete_entry-Keeps fuel child true,
    with_connection-Keeps g opened shows c admits,
    keeps_rules,
  )
