-- ===== src/Controller/Objects/Calls.antt =====
-- Which calls of its LDAP client an object asks for
-- (internal/controller/ldapobject_controller.go).
use openldap_operator.Base.{ℕ, String, ◌≡◌, ◌⊎◌, true, false, Option, List, ◌∷◌}
use openldap_operator.Go.{ok}
use openldap_operator.Api.{is_zero, LdapDirectory, LdapObject, ldap_object, Object, get_meta}
use openldap_operator.Api.Naming.{get_distinguished_name}
use openldap_operator.Mapper.{map_to_entry}
use openldap_operator.Ldap.Interface.{BuildClient}
use openldap_operator.Ldap.Fake.{Call, delete_entry, create_or_update_entry}
use openldap_operator.Controller.{NamespacedName, Kube}
use openldap_operator.Controller.Marks.{is_ready}
use openldap_operator.Controller.Objects.{own, owner_of}
use openldap_operator.Controller.Objects.Leading.{IsRequested, IsResolved, IsParent, IsReadyParent}

module _ {S : Type 0} (k : Kube S) (build : BuildClient S) (fuel : ℕ) where
  -- The call that an object asks for: its entry is deleted, with what is below it, once the object
  -- is being deleted; else the entry is written to which the object is mapped once it has its owner.
  abbrev pub AskedFor : LdapObject → Option Object → String → Call → Type 0
  AskedFor o owner dn (delete_entry name cascading) =
      (is_zero (get_meta o).deletion_timestamp ≡ false) × (name ≡ dn) × (cascading ≡ true)
  AskedFor o owner dn (create_or_update_entry e) =
      (is_zero (get_meta o).deletion_timestamp ≡ true)
      × (o' : LdapObject) × (s : S) × (t : S) × ((k.create_or_patch o (own k build fuel owner) s).0
          ≡ (o', ok tt))
      × ((map_to_entry k.reader dn o' t).0 ≡ ok e)
  AskedFor o owner dn _ = ⊥

  -- A call for the object of a request, once its directory and its parent are ready, at the object's
  -- name.
  pub record IsJustified (req : NamespacedName) (c : Call) : Type 0 where
    pub obj : LdapObject
    pub dir : LdapDirectory
    pub parent : Option Object
    pub dn : String
    pub world : S
    pub requested : IsRequested k build fuel req obj
    pub dir_resolved : IsResolved k obj dir
    pub dir_ready : is_ready dir.status.phase ≡ true
    pub parent_resolved : IsParent k obj parent
    pub parent_ready : IsReadyParent parent
    pub named_so : (get_distinguished_name k.reader fuel (ldap_object obj) world).0 ≡ ok dn
    pub asked_for : AskedFor obj (owner_of k build fuel obj dir parent) dn c

  -- The log is as it was, or has one call more, a justified one.
  abbrev pub AtMostOne : NamespacedName → List Call → List Call → Type 0
  AtMostOne req before after =
      (after ≡ before) ⊎ ((c : Call) × (after ≡ c ∷ before) × IsJustified req c)
