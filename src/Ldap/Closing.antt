-- ===== src/Ldap/Closing.antt =====
-- The connections that are open, before and after the methods of `clientImpl`
-- (internal/ldap/client.go).
use openldap_operator.Base.{ℕ, String, Bool, List}
use openldap_operator.Go.Calls.{Keeps}
use openldap_operator.Ldap.{Entry}
use openldap_operator.Ldap.Goldap.{Conn, Goldap}
use openldap_operator.Ldap.Client.{Client}
use openldap_operator.Ldap.Client.Connections.{ShowsOpened, Admits, ping-Keeps, get_entry-Keeps}
use openldap_operator.Ldap.Connections.{create_or_update_entry-Keeps, delete_entry-Keeps}
use openldap_operator.Ldap.Builder.{BuildCalls}
use openldap_operator.Ldap.Interface.{LdapClient, client_impl}

-- Each method of a client keeps a view of the world.
pub record Closes {S : Type 0} (opened : S → List Conn) (c : LdapClient S) : Type 0 where
  pub pings : Keeps opened c.ping
  pub reads : (dn : String) (e : Entry) → Keeps opened (c.get_entry dn e)
  pub writes : (e : Entry) → Keeps opened (c.create_or_update_entry e)
  pub deletes : (dn : String) (cascading : Bool) → Keeps opened (c.delete_entry dn cascading)

-- Where a view shows the connections that are open, so that to close one takes away just that one,
-- and the directory lets the administrator in, each method of the client, Ping, GetEntry,
-- CreateOrUpdateEntry and DeleteEntry with its recursive calls, leaves open the very connections that
-- were open before, however it ends.
pub client_impl-Closes :
    {S C Scheme : Type 0} (g : Goldap S) (calls : BuildCalls S C Scheme)
    (set_equal : List String → List String → Bool) (fuel : ℕ) (opened : S → List Conn) (c : Client)
    → ShowsOpened g opened
    → Admits g c
    → Closes opened (client_impl g calls set_equal fuel c)
unfolding client_impl
client_impl-Closes g calls set_equal fuel opened c shows admits = record {
  pings = ping-Keeps g opened shows c admits;
  reads = get_entry-Keeps g opened shows c admits;
  writes = create_or_update_entry-Keeps g opened shows c admits set_equal;
  deletes = delete_entry-Keeps g opened shows c admits fuel;
}
