-- ===== src/Ldap/Preserving.antt =====
-- What the client (internal/ldap/client.go) and its builder (internal/ldap/client_builder.go)
-- preserve of the world, from what go-ldap's and the cluster's calls preserve.
use openldap_operator.Base.{ℕ, zero, suc, String, Bool, true, List, [], ◌∷◌}
use openldap_operator.Go.{Error, M}
use openldap_operator.Go.Preserves.{Preserves, preserves_rules, Preserves-lift, Preserves-pure}
use openldap_operator.Ldap.{
  User, Group, OrganizationalUnit, Entry, organizational_unit, group, user,
}
use openldap_operator.Ldap.Goldap.{
  Conn, CertPool, SearchRequest, SearchEntry, AddRequest, Change, ModifyRequest,
  PasswordModifyRequest, Goldap,
}
use openldap_operator.Ldap.Client.{Client, connect, with_connection_or, search_reply}
use openldap_operator.Ldap.Upsert.{
  existing_entries, if_changed, modify_if_changed, set_password, try_password, check_password,
  upsert_organizational_unit, upsert_group, create_user, upsert_user, create_or_update_entry,
}
use openldap_operator.Ldap.Delete.{delete_one, delete_children, delete_entry}

-- Each call of go-ldap preserves `P`.
pub record GoldapPreserves {S : Type 0} (g : Goldap S) (P : S → Type 0) : Type 0 where
  pub dial_url : (url : String) (pool : CertPool) → Preserves P (g.dial_url url pool)
  pub set_timeout : (conn : Conn) (n : ℕ) (s : S) → P s → P (g.set_timeout conn n s)
  pub bind : (conn : Conn) (name password : String) → Preserves P (g.bind conn name password)
  pub search : (conn : Conn) (q : SearchRequest) (s : S) → P s → P (g.search conn q s).1
  pub add : (conn : Conn) (q : AddRequest) → Preserves P (g.add conn q)
  pub modify : (conn : Conn) (q : ModifyRequest) → Preserves P (g.modify conn q)
  pub del : (conn : Conn) (dn : String) → Preserves P (g.del conn dn)
  pub password_modify :
      (conn : Conn) (q : PasswordModifyRequest) → Preserves P (g.password_modify conn q)
  pub close : (conn : Conn) (s : S) → P s → P (g.close conn s)

-- The calls that write no attribute but a password preserve `P`.
pub record SessionPreserves {S : Type 0} (g : Goldap S) (P : S → Type 0) : Type 0 where
  pub dial_url : (url : String) (pool : CertPool) → Preserves P (g.dial_url url pool)
  pub set_timeout : (conn : Conn) (n : ℕ) (s : S) → P s → P (g.set_timeout conn n s)
  pub bind : (conn : Conn) (name password : String) → Preserves P (g.bind conn name password)
  pub search : (conn : Conn) (q : SearchRequest) (s : S) → P s → P (g.search conn q s).1
  pub password_modify :
      (conn : Conn) (q : PasswordModifyRequest) → Preserves P (g.password_modify conn q)
  pub close : (conn : Conn) (s : S) → P s → P (g.close conn s)

module _ {S : Type 0} (g : Goldap S) (P : S → Type 0) (calls : SessionPreserves g P) where
  pub search_reply-P : (conn : Conn) (q : SearchRequest) → Preserves P (search_reply g conn q)
  unfolding search_reply
  search_reply-P conn q = search (calls.search, preserves_rules)

  pub connect-P : (c : Client) → Preserves P (connect g c)
  unfolding connect
  connect-P c = search (calls.dial_url, calls.set_timeout, calls.bind, preserves_rules)

  pub with_connection-P :
      {A : Type 0} (f : Error → Error) (c : Client) (body : Conn → M S Error A)
      → ((conn : Conn) → Preserves P (body conn))
      → Preserves P (with_connection_or g f c body)
  unfolding with_connection_or
  with_connection-P f c body h = search (connect-P, calls.close, preserves_rules)

  pub existing_entries-P :
      (conn : Conn) (text : String) (q : SearchRequest)
      → Preserves P (existing_entries g conn text q)
  unfolding existing_entries
  existing_entries-P conn text q = search (search_reply-P, preserves_rules)

  pub set_password-P : (conn : Conn) (u : User) → Preserves P (set_password g conn u)
  unfolding set_password
  set_password-P conn u = search (calls.password_modify, preserves_rules)

  pub try_password-P : (conn : Conn) (u : User) → Preserves P (try_password g conn u)
  unfolding try_password
  try_password-P conn u = record { at = (calls.bind conn u.distinguished_name u.password).at }

  pub check_password-P :
      (c : Client) (conn : Conn) (u : User) → Preserves P (check_password g c conn u)
  unfolding check_password
  check_password-P c conn u =
      search (try_password-P, set_password-P, with_connection-P, preserves_rules)

module _ {S : Type 0} (g : Goldap S) (P : S → Type 0) (calls : GoldapPreserves g P) where
  session : SessionPreserves g P
  session = record {
    dial_url = calls.dial_url;
    set_timeout = calls.set_timeout;
    bind = calls.bind;
    search = calls.search;
    password_modify = calls.password_modify;
    close = calls.close;
  }

  if_changed-P :
      (cs : List Change) (m : M S Error (Unit {0}))
      → Preserves P m
      → Preserves P (if_changed g cs m)
  unfolding if_changed
  if_changed-P [] m h = Preserves-pure tt
  if_changed-P (_ ∷ _) m h = h

  modify-P :
      (conn : Conn) (text : String) (q : ModifyRequest)
      → Preserves P (modify_if_changed g conn text q)
  unfolding modify_if_changed
  modify-P conn text q = search (if_changed-P, calls.modify, preserves_rules)

  upsert_organizational_unit-P :
      (conn : Conn) (ou : OrganizationalUnit) (es : List SearchEntry)
      → Preserves P (upsert_organizational_unit g conn ou es)
  unfolding upsert_organizational_unit
  upsert_organizational_unit-P conn ou [] = search (calls.add, preserves_rules)
  upsert_organizational_unit-P conn ou (e ∷ es) = search (modify-P, preserves_rules)

  upsert_group-P :
      (set_equal : List String → List String → Bool) (conn : Conn) (gr : Group)
      (es : List SearchEntry)
      → Preserves P (upsert_group g set_equal conn gr es)
  unfolding upsert_group
  upsert_group-P set_equal conn gr [] = search (calls.add, preserves_rules)
  upsert_group-P set_equal conn gr (e ∷ es) = search (modify-P, preserves_rules)

  upsert_user-P :
      (c : Client) (conn : Conn) (u : User) (es : List SearchEntry)
      → Preserves P (upsert_user g c conn u es)
  unfolding upsert_user create_user
  upsert_user-P c conn u [] = search (calls.add, set_password-P g P session, preserves_rules)
  upsert_user-P c conn u (e ∷ es) = search (modify-P, check_password-P g P session, preserves_rules)

  -- `CreateOrUpdateEntry` preserves what go-ldap's calls do.
  pub create_or_update_entry-P :
      (set_equal : List String → List String → Bool) (c : Client) (e : Entry)
      → Preserves P (create_or_update_entry g set_equal c e)
  unfolding create_or_update_entry
  create_or_update_entry-P set_equal c (organizational_unit ou) = search (
    existing_entries-P g P session,
    upsert_organizational_unit-P,
    with_connection-P g P session,
    preserves_rules,
  )
  create_or_update_entry-P set_equal c (group gr) = search (
    existing_entries-P g P session,
    upsert_group-P,
    with_connection-P g P session,
    preserves_rules,
  )
  create_or_update_entry-P set_equal c (user u) = search (
    existing_entries-P g P session,
    upsert_user-P,
    with_connection-P g P session,
    preserves_rules,
  )

  delete_one-P : (conn : Conn) (dn : String) → Preserves P (delete_one g conn dn)
  unfolding delete_one
  delete_one-P conn dn = record { at = (calls.del conn dn).at }

  delete_children-P :
      (rec : String → M S Error (Unit {0})) (conn : Conn) (dn : String)
      → ((child : String) → Preserves P (rec child))
      → Preserves P (delete_children g rec conn dn)
  unfolding delete_children
  delete_children-P rec conn dn h = search (h, search_reply-P g P session, preserves_rules)

  -- `DeleteEntry` preserves what go-ldap's calls do.
  pub delete_entry-P :
      (fuel : ℕ) (c : Client) (dn : String) (cascading : Bool)
      → Preserves P (delete_entry g fuel c dn cascading)
  unfolding delete_entry
  delete_entry-P zero c dn cascading = Preserves-lift _
  delete_entry-P (suc fuel) c dn cascading = search (
    delete_children-P,
    delete_one-P,
    λ (child : String). delete_entry-P fuel c child true,
    with_connection-P g P session,
    preserves_rules,
  )
