-- ===== src/Tests/Clients.antt =====
-- The client over servers that are given by a few answers.
use openldap_operator.Base.{
  ℕ, ◌+◌, String, ◌==◌, ◌≡◌, ◌≢◌, ◌↔◌, refl, ap, Bool, true, false, none, some, List, [], ◌∷◌,
  arith, if◌then◌else◌,
}
use openldap_operator.Controller.Objects.Leading.{ok-inj}
use openldap_operator.Go.{Fault, fault, wrapf, ok, err, is_error_with_code, ◌>>=◌}
use openldap_operator.Ldap.{organizational_unit, group, user}
use openldap_operator.Ldap.Goldap.{SearchEntry, Goldap}
use openldap_operator.Ldap.Client.{Client, connect}
use openldap_operator.Ldap.Client.Connections
use openldap_operator.Ldap.Client.Faults
use openldap_operator.Ldap.Upsert.{create_or_update_entry, create_or_update_user}
use openldap_operator.Ldap.Upsert.Created
use openldap_operator.Ldap.Upsert.Passwords
use openldap_operator.Ldap.Upsert.RoundTrip
use openldap_operator.Ldap.Upsert.Modifications
use openldap_operator.Ldap.Upsert.Updates
use openldap_operator.Ldap.Upsert.Unneeded
use openldap_operator.Ldap.Closing
use openldap_operator.Ldap.Interface.{client_impl}
use openldap_operator.Ldap.Builder.{BuildCalls}
use openldap_operator.Tests.Samples.{unit_entry, group_entry, user_entry}

abbrev refused : Fault
refused = record { text = "LDAP Result Code 206"; not_found = false; result_code = some 206 }

-- The number of the next connection.
abbrev next : List ℕ → ℕ
next [] = 7
next (conn ∷ conns) = conn + 1

-- A server that gives the same answer to every search, and refuses one password; a world is the
-- connections that are open.
abbrev server : String → List SearchEntry → Goldap (List ℕ)
server bad es = record {
  dial_url = λ a p s. (ok (next s), next s ∷ s);
  set_timeout = λ conn n s. s;
  bind = λ conn u p s. (if p == bad then err refused else ok tt, s);
  search = λ conn q s. (record { entries = some es; error = none }, s);
  add = λ conn q s. (ok tt, s);
  modify = λ conn q s. (ok tt, s);
  del = λ conn dn s. (ok tt, s);
  password_modify = λ conn q s. (ok tt, s);
  close = λ conn s. Connections.remove_conn conn s;
}

abbrev opened : List ℕ → List ℕ
opened s = s

server-ShowsOpened :
    (bad : String) (es : List SearchEntry) → Connections.ShowsOpened (server bad es) opened
server-ShowsOpened bad es = record {
  dialled = λ a p s {conn} h. ap (λ c. c ∷ s) (ok-inj h);
  not_dialled = λ a p s h. absurd (h (next s) refl);
  closed = λ conn s. refl;
  set_timeout_same = λ conn n s. refl;
  bind_same = λ conn u p. record { same = λ s. refl };
  search_same = λ conn q s. refl;
  add_same = λ conn q. record { same = λ s. refl };
  modify_same = λ conn q. record { same = λ s. refl };
  del_same = λ conn dn. record { same = λ s. refl };
  password_modify_same = λ conn q. record { same = λ s. refl };
}

abbrev pub admin : Client
admin = record {
  directory_address = "ldaps://ldap-demo.default.svc.cluster.local";
  ca_bundle = record { pem = "" };
  admin_username = "cn=admin,dc=example,dc=com";
  admin_password = "secret";
  base_dn = "dc=example,dc=com";
}

-- The attributes of an entry of the directory, for every type.
abbrev stored : SearchEntry
stored = record {
  dn = "uid=demo,dc=example,dc=com";
  get_attribute_value = λ a. if a == "mail" then "" else "old";
  get_attribute_values = λ a. "old" ∷ [];
}

-- A cluster without secrets.
abbrev no_secrets : BuildCalls (List ℕ) (Unit {0}) (Unit {0})
no_secrets = record {
  get_secret = λ c namespace name s. (err refused, s);
  resolve_secret = λ c scheme ref o s. (record { object = none; found = false; error = none }, s);
  append_certs_from_pem = λ pem. false;
  cluster_domain = "cluster.local";
}

abbrev any_equal : List String → List String → Bool
any_equal xs ys = false

client_impl-Closes_example :
    Closing.Closes opened (client_impl (server "" (stored ∷ [])) no_secrets any_equal 3 admin)
client_impl-Closes_example =
    Closing.client_impl-Closes (server "" (stored ∷ [])) no_secrets any_equal 3 opened admin
      (server-ShowsOpened "" (stored ∷ [])) (λ conn s. refl)

-- The administrator's own password is the one that is refused.
connect-refused_example :
    (connect (server "secret" []) admin (3 ∷ [])
      ≡ (err (wrapf "failed to bind to ldap directory" (fault refused)), 4 ∷ 3 ∷ []))
    × (opened (4 ∷ 3 ∷ []) ≡ 4 ∷ opened (3 ∷ []))
connect-refused_example =
    Faults.connect-refused (server "secret" []) opened (server-ShowsOpened "secret" []) admin
      (3 ∷ []) refl refl

test_create :
    create_or_update_entry (server "" []) any_equal admin (group group_entry) [] ≡ (ok true, [])
unfolding create_or_update_entry ◌>>=◌
test_create = refl

create_or_update_entry-created_example :
    (conn : ℕ) × (s : List ℕ) × (es : List SearchEntry) × (connect (server "" []) admin []
      ≡ (ok conn, s))
    × (some [] ≡ some es)
    × (true ≡ Created.is_empty es)
create_or_update_entry-created_example =
    Created.create_or_update_entry-created (server "" []) any_equal admin (group group_entry) [] []
      test_create

create_or_update_user-empty_example :
    create_or_update_user (server "" (stored ∷ [])) admin (user_entry "") [] ≢ (ok false, [])
unfolding connect is_error_with_code ◌>>=◌
create_or_update_user-empty_example =
    Passwords.create_or_update_user-empty (server "" (stored ∷ []))
      (λ conn dn s. (refused, refl, refl)) admin (user_entry "") refl [] [] (7 ∷ []) 7 stored []
      refl refl

-- What the directory holds for `stored`.
abbrev held : Modifications.Values
held a = if a == "mail" then [] else "old" ∷ []

entry_modify-Updated_example :
    Modifications.replay (Updates.entry_modify any_equal (user (user_entry "")) stored).changes held
    ≡ Modifications.set_values
        (Modifications.set_values
          (Modifications.set_values held "cn" ("Demo User" ∷ []))
          "sn"
          ("User" ∷ []))
        "mail"
        ("demo@example.com" ∷ [])
entry_modify-Updated_example =
    Updates.entry_modify-Updated any_equal (λ xs ys h. ground arith) (user (user_entry "")) stored
      held (refl, refl, refl)

entry_modify-nil_example :
    ((Updates.entry_modify any_equal (organizational_unit unit_entry) stored).changes ≡ [])
    ↔ Unneeded.NeedsNothing any_equal (organizational_unit unit_entry) stored
entry_modify-nil_example =
    Unneeded.entry_modify-nil any_equal (organizational_unit unit_entry) stored
