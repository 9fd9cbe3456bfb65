-- ===== src/Ldap/Interface.antt =====
-- The interfaces `Client` and `ClientBuilder` of internal/ldap, by which the controllers reach a
-- directory, and `clientImpl` and `clientBuilderImpl` as implementations.
use openldap_operator.Base.{ℕ, String, Bool, List}
use openldap_operator.Go.{Error, M, pure, ◌>>=◌}
use openldap_operator.Api.{LdapDirectory}
use openldap_operator.Ldap.{Entry}
use openldap_operator.Ldap.Goldap.{Goldap}
use openldap_operator.Ldap.Client.{Client, ping, get_entry}
use openldap_operator.Ldap.Upsert.{create_or_update_entry}
use openldap_operator.Ldap.Delete.{delete_entry}
use openldap_operator.Ldap.Builder.{ClientBuilder, with_directory, BuildCalls, build}

-- `Client`
pub record LdapClient (S : Type 0) : Type 0 where
  pub ping : M S Error (Unit {0})
  pub get_entry : String → Entry → M S Error Entry
  pub create_or_update_entry : Entry → M S Error Bool
  pub delete_entry : String → Bool → M S Error (Unit {0})

-- `WithDirectory(directory).Build(ctx)` of a builder that has its client and scheme.
abbrev pub BuildClient : Type 0 → Type 0
BuildClient S = LdapDirectory → M S Error (LdapClient S)

module _ {S C Scheme : Type 0} (g : Goldap S) (calls : BuildCalls S C Scheme)
    (set_equal : List String → List String → Bool) (fuel : ℕ) where
  -- The methods of a `*clientImpl`; `fuel` bounds the depth of a cascading deletion.
  unfoldable pub client_impl : Client → LdapClient S
  client_impl c = record {
    ping = ping g c;
    get_entry = get_entry g c;
    create_or_update_entry = create_or_update_entry g set_equal c;
    delete_entry = delete_entry g fuel c;
  }

  unfoldable pub build_client : ClientBuilder C Scheme → BuildClient S
  unfolding client_impl with_directory
  build_client b d = do c ← build calls (with_directory b d); pure (client_impl c)
