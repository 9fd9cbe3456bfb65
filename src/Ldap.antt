-- ===== src/Ldap.antt =====
-- Package ldap (internal/ldap): the entries of types.go, and the client over a directory server.
pub mod Goldap
pub mod Client
pub mod Upsert
pub mod Delete
pub mod Builder
pub mod Interface
pub mod Fake
pub mod Connections
pub mod Preserving
pub mod Closing
use openldap_operator.Base.{String, List}

-- `OrganizationalUnit`
pub record OrganizationalUnit : Type 0 where
  pub distinguished_name : String
  pub name : String
  pub description : String

-- `Group`
pub record Group : Type 0 where
  pub distinguished_name : String
  pub name : String
  pub description : String
  pub members : List String

-- `User`
pub record User : Type 0 where
  pub distinguished_name : String
  pub username : String
  pub name : String
  pub surname : String
  pub email : String
  pub password : String

-- The constraint `Entry`: a pointer to one of the three.
pub data Entry : Type 0 where
  organizational_unit : OrganizationalUnit → Entry
  group : Group → Entry
  user : User → Entry
