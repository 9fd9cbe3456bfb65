-- ===== src/Ldap/Goldap.antt =====
-- What the client uses of github.com/go-ldap/ldap/v3: the requests that it builds, and the calls on
-- a connection, which are parameters.
use openldap_operator.Base.{ℕ, String, Option, List, [], ◌∷◌, ◌++◌}
use openldap_operator.Go.{Fault, M}

-- A `*goldap.Conn`, by its identity.
abbrev pub Conn : Type 0
Conn = ℕ

-- An `x509.CertPool`, by the PEM text that it was made from.
pub record CertPool : Type 0 where
  pub pem : String

pub data Scope : Type 0 where
  base_object single_level whole_subtree : Scope

pub data Deref : Type 0 where
  never_deref_aliases deref_always : Deref

pub record SearchRequest : Type 0 where
  pub base_dn : String
  pub scope : Scope
  pub deref_aliases : Deref
  pub size_limit : ℕ
  pub filter : String
  pub attributes : List String

-- An entry of a search result, by what can be asked of it.
pub record SearchEntry : Type 0 where
  pub dn : String
  pub get_attribute_value : String → String
  pub get_attribute_values : String → List String

-- The pair that `Search` returns: the entries of a result, which may be nil, and an error.
pub record SearchReply : Type 0 where
  pub entries : Option (List SearchEntry)
  pub error : Option Fault

pub record Attribute : Type 0 where
  pub name : String
  pub values : List String

pub record AddRequest : Type 0 where
  pub dn : String
  pub attributes : List Attribute

-- `addRequest.Attribute(name, values)`
abbrev pub attribute : AddRequest → String → List String → AddRequest
attribute r name values = record r {
  attributes = r.attributes ++ record { name = name; values = values } ∷ [];
}

pub data Change : Type 0 where
  add delete replace : String → List String → Change

pub record ModifyRequest : Type 0 where
  pub dn : String
  pub changes : List Change

-- `modifyRequest.Add`, `Delete` and `Replace`, by the change.
abbrev pub with_change : ModifyRequest → Change → ModifyRequest
with_change r c = record r { changes = r.changes ++ c ∷ [] }

pub record PasswordModifyRequest : Type 0 where
  pub user_identity : String
  pub old_password : String
  pub new_password : String

-- The calls, over a world `S` that holds the directory server.
pub record Goldap (S : Type 0) : Type 0 where
  pub dial_url : String → CertPool → M S Fault Conn
  -- In seconds.
  pub set_timeout : Conn → ℕ → S → S
  pub bind : Conn → String → String → M S Fault (Unit {0})
  pub search : Conn → SearchRequest → S → SearchReply × S
  pub add : Conn → AddRequest → M S Fault (Unit {0})
  pub modify : Conn → ModifyRequest → M S Fault (Unit {0})
  pub del : Conn → String → M S Fault (Unit {0})
  pub password_modify : Conn → PasswordModifyRequest → M S Fault (Unit {0})
  pub close : Conn → S → S

-- LDAP result codes.
abbrev pub no_such_object : ℕ
no_such_object = 32

abbrev pub invalid_credentials : ℕ
invalid_credentials = 49
