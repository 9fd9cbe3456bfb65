-- ===== src/Ldap/Fake.antt =====
-- internal/ldap/fake_client.go: the client and the builder of the tests, which pass each call to a mock
-- of testify, a parameter here.
pub mod Logs
use openldap_operator.Base.{ℕ, String, Bool, Option, none, some, List, ◌∷◌, ◌≡◌}
use openldap_operator.Go.{Error, Result, ok, err, M, pure, lift, ◌>>=◌, ◌>>◌}
use openldap_operator.Api.{LdapDirectory}
use openldap_operator.Ldap.{Entry}
use openldap_operator.Ldap.Interface.{LdapClient, BuildClient}

-- A call of a method of `Client`, with its arguments.
pub data Call : Type 0 where
  ping : Call
  get_entry : String → Entry → Call
  create_or_update_entry : Entry → Call
  delete_entry : String → Bool → Call

-- `mock.Mock`: `Called` records the call that it is made in, and gives the arguments to return or
-- panics; `Error` and `Bool` read an argument or panic.
pub record Mock (S Arguments : Type 0) : Type 0 where
  pub called : Call → M S Error Arguments
  pub error : Arguments → ℕ → Result Error (Option Error)
  pub bool : Arguments → ℕ → Result Error Bool

-- `fakeClientBuilder`
pub record FakeClientBuilder (S Arguments : Type 0) : Type 0 where
  pub mock : Mock S Arguments

-- `return err`
unfoldable pub returned : {S : Type 0} → Option Error → M S Error (Unit {0})
returned none = pure tt
returned (some e) = lift (err e)

module _ {S Arguments : Type 0} where
  -- `fakeClient`
  unfoldable pub fake_ping : Mock S Arguments → M S Error (Unit {0})
  unfolding returned
  fake_ping m = do args ← m.called ping; e ← lift (m.error args 0); returned e

  unfoldable pub fake_get_entry : Mock S Arguments → String → Entry → M S Error Entry
  unfolding returned
  fake_get_entry m dn entry = do
    args ← m.called (get_entry dn entry)
    e ← lift (m.error args 0)
    returned e
    pure entry

  unfoldable pub fake_create_or_update_entry : Mock S Arguments → Entry → M S Error Bool
  unfolding returned
  fake_create_or_update_entry m entry = do
    args ← m.called (create_or_update_entry entry)
    created ← lift (m.bool args 0)
    e ← lift (m.error args 1)
    returned e
    pure created

  unfoldable pub fake_delete_entry : Mock S Arguments → String → Bool → M S Error (Unit {0})
  unfolding returned
  fake_delete_entry m dn cascading = do
    args ← m.called (delete_entry dn cascading)
    e ← lift (m.error args 0)
    returned e

  unfoldable pub fake_client : Mock S Arguments → LdapClient S
  unfolding fake_ping fake_get_entry fake_create_or_update_entry fake_delete_entry
  fake_client m = record {
    ping = fake_ping m;
    get_entry = fake_get_entry m;
    create_or_update_entry = fake_create_or_update_entry m;
    delete_entry = fake_delete_entry m;
  }

  unfoldable pub new_fake_client_builder : Mock S Arguments → FakeClientBuilder S Arguments
  new_fake_client_builder m = record { mock = m }

  unfoldable pub with_client :
      {C : Type 0} → FakeClientBuilder S Arguments → C → FakeClientBuilder S Arguments
  with_client b c = b

  unfoldable pub with_scheme :
      {Scheme : Type 0} → FakeClientBuilder S Arguments → Scheme → FakeClientBuilder S Arguments
  with_scheme b s = b

  unfoldable pub with_directory :
      FakeClientBuilder S Arguments → LdapDirectory → FakeClientBuilder S Arguments
  with_directory b d = b

  unfoldable pub build : FakeClientBuilder S Arguments → M S Error (LdapClient S)
  unfolding fake_client
  build b = pure (fake_client b.mock)

  -- `WithDirectory(directory).Build(ctx)`
  unfoldable pub build_fake_client : FakeClientBuilder S Arguments → BuildClient S
  unfolding with_directory build
  build_fake_client b d = build (with_directory b d)
