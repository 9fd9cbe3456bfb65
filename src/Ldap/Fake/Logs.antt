-- ===== src/Ldap/Fake/Logs.antt =====
-- A log of the calls of clients, and the log that the mock of internal/ldap/fake_client.go keeps.
use openldap_operator.Base.{String, Bool, Option, none, some, List, ◌∷◌, ◌≡◌, ◌∙◌, refl, subst}
use openldap_operator.Go.{Error, Result, ok, lift, pure, ◌>>=◌, ◌>>◌}
use openldap_operator.Go.Calls.{Keeps, keeps_rules, Keeps-pure, Keeps-lift, >>=-same}
use openldap_operator.Api.{LdapDirectory}
use openldap_operator.Ldap.{Entry}
use openldap_operator.Ldap.Interface.{LdapClient, BuildClient}
use openldap_operator.Ldap.Fake.{
  Call, delete_entry, create_or_update_entry, Mock, returned, fake_client, fake_delete_entry,
  fake_create_or_update_entry, build, build_fake_client,
}

-- A log of the calls of clients, the last first: a client that is built logs its own.
pub record Records {S : Type 0} (build : BuildClient S) (calls : S → List Call) : Type 0 where
  pub builds : (d : LdapDirectory) → Keeps calls (build d)
  pub deletes :
      (d : LdapDirectory) (s : S) (c : LdapClient S)
      → (build d s).0 ≡ ok c
      → (dn : String) (cascading : Bool) (t : S)
      → calls (c.delete_entry dn cascading t).1 ≡ delete_entry dn cascading ∷ calls t
  pub writes :
      (d : LdapDirectory) (s : S) (c : LdapClient S)
      → (build d s).0 ≡ ok c
      → (e : Entry) (t : S)
      → calls (c.create_or_update_entry e t).1 ≡ create_or_update_entry e ∷ calls t

returned-Keeps : {S : Type 0} {calls : S → List Call} (e : Option Error) → Keeps calls (returned e)
unfolding returned
returned-Keeps none = Keeps-pure tt
returned-Keeps (some e) = Keeps-lift _

module _ {S Arguments : Type 0} {calls : S → List Call} (m : Mock S Arguments)
    (logs : (c : Call) (s : S) → calls (m.called c s).1 ≡ c ∷ calls s) where
  fake_delete_entry-logs :
      (dn : String) (cascading : Bool) (s : S)
      → calls (fake_delete_entry m dn cascading s).1 ≡ delete_entry dn cascading ∷ calls s
  unfolding fake_delete_entry
  fake_delete_entry-logs dn cascading s =
      >>=-same {v = calls} (m.called (delete_entry dn cascading))
        (λ args. lift (m.error args 0) >>= returned) (λ args. search (returned-Keeps, keeps_rules))
        s
      ∙ logs (delete_entry dn cascading) s

  fake_create_or_update_entry-logs :
      (e : Entry) (s : S)
      → calls (fake_create_or_update_entry m e s).1 ≡ create_or_update_entry e ∷ calls s
  unfolding fake_create_or_update_entry
  fake_create_or_update_entry-logs e s =
      >>=-same {v = calls} (m.called (create_or_update_entry e))
        (λ args. do
          created ← lift (m.bool args 0)
          e' ← lift (m.error args 1)
          returned e'
          pure created)
        (λ args. search (returned-Keeps, keeps_rules)) s
      ∙ logs (create_or_update_entry e) s

  -- Where `Called` logs the call that it is made in, whether or not it panics, the client that the fake
  -- builder makes logs its calls.
  pub build_fake_client-Records : Records (build_fake_client (record { mock = m })) calls
  unfolding build_fake_client build pure fake_client
  build_fake_client-Records = record {
    builds = λ d. record { same = λ s. refl };
    deletes = λ d s c e dn cascading t.
        subst (λ x. calls (x.delete_entry dn cascading t).1 ≡ delete_entry dn cascading ∷ calls t)
          (built e) (fake_delete_entry-logs dn cascading t);
    writes = λ d s c h e t.
        subst (λ x. calls (x.create_or_update_entry e t).1 ≡ create_or_update_entry e ∷ calls t)
          (built h) (fake_create_or_update_entry-logs e t);
  }
    where
      built :
          {c : LdapClient S}
          → ◌≡◌ {A = Result Error (LdapClient S)} (ok (fake_client m)) (ok c)
          → fake_client m ≡ c
      built e = cc
