-- ===== src/Ldap/Delete.antt =====
-- `DeleteEntry` of internal/ldap/client.go. A cascading call deletes the children first, each by a
-- cascading call of its own over a connection of its own; the recursion takes fuel, one unit for
-- each level of the tree.
pub mod Tree
pub mod Subtree
use openldap_operator.Base.{ℕ, zero, suc, String, Bool, true, [], ◌∷◌, if◌then◌else◌}
use openldap_operator.Go.{
  Fault, is_error_with_code, Error, fault, Result, ok, err, panic, unfinished, M, pure, lift,
  for_each, ◌>>=◌, ◌>>◌,
}
use openldap_operator.Ldap.Goldap.{
  Conn, single_level, never_deref_aliases, SearchRequest, Goldap, no_such_object,
}
use openldap_operator.Ldap.Client.{
  Client, with_connection_or, with_connection, search_reply, search_allowing_missing, reply_entries,
}

-- `if err != nil && !goldap.IsErrorWithCode(err, goldap.LDAPResultNoSuchObject) { return err }`
-- after a deletion.
unfoldable pub allow_missing : Result Fault (Unit {0}) → Result Error (Unit {0})
unfolding is_error_with_code
allow_missing (ok _) = ok tt
allow_missing (err f) = if is_error_with_code f no_such_object then ok tt else err (fault f)
allow_missing (panic p) = panic p
allow_missing unfinished = unfinished

-- The search for the children of an entry.
abbrev pub children_request : String → SearchRequest
children_request dn = record {
  base_dn = dn;
  scope = single_level;
  deref_aliases = never_deref_aliases;
  size_limit = 0;
  filter = "(objectClass=*)";
  attributes = "dn" ∷ [];
}

module _ {S : Type 0} (g : Goldap S) where
  -- `err = conn.Del(delRequest)`, where a missing entry is no error.
  unfoldable pub delete_one : Conn → String → M S Error (Unit {0})
  unfolding allow_missing
  delete_one conn dn s = let (r, s') = g.del conn dn s in (allow_missing r, s')

  -- The branch `if cascading`, with the recursive call as `rec`.
  unfoldable pub delete_children :
      (String → M S Error (Unit {0})) → Conn → String → M S Error (Unit {0})
  unfolding search_reply search_allowing_missing reply_entries for_each
  delete_children rec conn dn = do
    reply ← search_reply g conn (children_request dn)
    lift (search_allowing_missing (λ e. e) reply)
    entries ← lift (reply_entries reply)
    for_each (λ e. rec e.dn) entries

  -- `DeleteEntry`
  unfoldable pub delete_entry : ℕ → Client → String → Bool → M S Error (Unit {0})
  unfolding with_connection_or delete_children delete_one
  delete_entry zero c dn cascading = lift unfinished
  delete_entry (suc fuel) c dn cascading = with_connection g c λ conn. do
    (if cascading
        then delete_children (λ child s. delete_entry fuel c child true s) conn dn
        else pure tt)
    delete_one conn dn
