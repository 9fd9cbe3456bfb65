-- ===== src/Ldap/Client.antt =====
-- internal/ldap/client.go: the client's fields, `connect`, `Ping` and the reads.
pub mod Connections
pub mod Success
pub mod Faults
use openldap_operator.Base.{String, none, some, List, [], ◌∷◌, if◌then◌else◌}
use openldap_operator.Go.{
  is_error_with_code, Error, fault, wrapf, Result, ok, err, panic, M, pure, lift, effect, ask,
  finally, on_err, call_or, ◌>>=◌, ◌>>◌,
}
use openldap_operator.Ldap.Goldap.{
  Conn, CertPool, base_object, whole_subtree, deref_always, never_deref_aliases, SearchRequest,
  SearchEntry, SearchReply, Goldap, no_such_object,
}
use openldap_operator.Ldap.{
  OrganizationalUnit, Group, User, Entry, organizational_unit, group, user,
}

-- `clientImpl`
pub record Client : Type 0 where
  pub directory_address : String
  pub ca_bundle : CertPool
  pub admin_username : String
  pub admin_password : String
  pub base_dn : String

-- `err` as a call returns it, where the reply's entries are of no use.
unfoldable pub search_error : SearchReply → Result Error (Unit {0})
search_error reply = elim reply.error [ none ↦ ok tt | some f ↦ err (fault f) ]

-- `if err != nil { return fmt.Errorf("text: %w", err) }` after a search.
unfoldable pub search_or : String → SearchReply → Result Error (Unit {0})
search_or text reply = elim reply.error [ none ↦ ok tt | some f ↦ err (wrapf text (fault f)) ]

-- The same where a missing base is no error:
-- `if err != nil && !goldap.IsErrorWithCode(err, goldap.LDAPResultNoSuchObject)`. The error is
-- returned as `g` makes it.
unfoldable pub search_allowing_missing : (Error → Error) → SearchReply → Result Error (Unit {0})
unfolding is_error_with_code
search_allowing_missing g reply = elim reply.error [
  | none ↦ ok tt
  | some f ↦ if is_error_with_code f no_such_object then ok tt else err (g (fault f))
]

-- `searchResult.Entries`, a panic if the result is nil.
unfoldable pub reply_entries : SearchReply → Result Error (List SearchEntry)
reply_entries reply = elim reply.entries [
  | none ↦ panic "invalid memory address or nil pointer dereference"
  | some es ↦ ok es
]

-- `entries[0]`, a panic if there is none.
unfoldable pub first_entry : List SearchEntry → Result Error SearchEntry
first_entry [] = panic "index out of range"
first_entry (e ∷ es) = ok e

module _ {S : Type 0} (g : Goldap S) where
  -- `conn.Search(request)`
  unfoldable pub search_reply : Conn → SearchRequest → M S Error SearchReply
  search_reply conn request = ask (g.search conn request)

  -- `connect`
  unfoldable pub connect : Client → M S Error Conn
  connect c = do
    conn ←
        call_or "failed to connect to ldap directory" (g.dial_url c.directory_address c.ca_bundle)
    effect (g.set_timeout conn 5)
    call_or "failed to bind to ldap directory" (g.bind conn c.admin_username c.admin_password)
    pure conn

  -- `conn, err := c.connect(); if err != nil { return f(err) }; defer conn.Close()`, then the body.
  unfoldable pub with_connection_or :
      {A : Type 0} → (Error → Error) → Client → (Conn → M S Error A) → M S Error A
  unfolding connect
  with_connection_or f c body = do conn ← on_err f (connect c); finally (body conn) (g.close conn)

  -- The same where the error is returned as it is.
  abbrev pub with_connection : {A : Type 0} → Client → (Conn → M S Error A) → M S Error A
  with_connection = with_connection_or (λ e. e)

  -- `Ping`
  unfoldable pub ping : Client → M S Error (Unit {0})
  unfolding with_connection_or search_reply search_error
  ping c = with_connection c λ conn. do
    reply ← search_reply conn (record {
      base_dn = c.base_dn;
      scope = base_object;
      deref_aliases = deref_always;
      size_limit = 0;
      filter = "(objectClass=*)";
      attributes = "1.1" ∷ [];
    })
    lift (search_error reply)

  -- The single entry that a read asks for: `searchResult.Entries[0]` of a search without error.
  unfoldable pub read_first : Client → String → SearchRequest → M S Error SearchEntry
  unfolding with_connection_or search_reply search_or reply_entries first_entry
  read_first c text request = with_connection c λ conn. do
    reply ← search_reply conn request
    lift (search_or text reply)
    entries ← lift (reply_entries reply)
    lift (first_entry entries)

  -- `getOrganizationalUnit`
  unfoldable pub get_organizational_unit : Client → String → M S Error OrganizationalUnit
  unfolding read_first
  get_organizational_unit c dn = do
    e ← read_first c "failed to search for organizational unit" (record {
      base_dn = dn;
      scope = base_object;
      deref_aliases = never_deref_aliases;
      size_limit = 1;
      filter = "(&(objectClass=organizationalUnit))";
      attributes = "dn" ∷ "ou" ∷ "description" ∷ [];
    })
    pure (record {
      distinguished_name = e.dn;
      name = e.get_attribute_value "ou";
      description = e.get_attribute_value "description";
    })

  -- `getGroup`
  unfoldable pub get_group : Client → String → M S Error Group
  unfolding read_first
  get_group c dn = do
    e ← read_first c "failed to search for group" (record {
      base_dn = dn;
      scope = whole_subtree;
      deref_aliases = never_deref_aliases;
      size_limit = 1;
      filter = "(objectClass=groupOfNames)";
      attributes = "dn" ∷ "cn" ∷ "description" ∷ "member" ∷ [];
    })
    pure (record {
      distinguished_name = e.dn;
      name = e.get_attribute_value "cn";
      description = e.get_attribute_value "description";
      members = e.get_attribute_values "member";
    })

  -- `getUser`
  unfoldable pub get_user : Client → String → M S Error User
  unfolding read_first
  get_user c dn = do
    e ← read_first c "failed to search for user" (record {
      base_dn = dn;
      scope = whole_subtree;
      deref_aliases = never_deref_aliases;
      size_limit = 1;
      filter = "(objectClass=inetOrgPerson)";
      attributes = "dn" ∷ "uid" ∷ "cn" ∷ "sn" ∷ "mail" ∷ "userPassword" ∷ [];
    })
    pure (record {
      distinguished_name = e.dn;
      username = e.get_attribute_value "uid";
      name = e.get_attribute_value "cn";
      surname = e.get_attribute_value "sn";
      email = e.get_attribute_value "mail";
      password = e.get_attribute_value "userPassword";
    })

  -- `GetEntry`, which overwrites the entry that it is given with one of the same type.
  unfoldable pub get_entry : Client → String → Entry → M S Error Entry
  unfolding get_organizational_unit get_group get_user
  get_entry c dn (organizational_unit _) = do
    ou ← get_organizational_unit c dn
    pure (organizational_unit ou)
  get_entry c dn (group _) = do g' ← get_group c dn; pure (group g')
  get_entry c dn (user _) = do u ← get_user c dn; pure (user u)
