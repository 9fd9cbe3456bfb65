-- ===== src/Ldap/Builder/Names.antt =====
-- The two ways in which the program spells a directory's name: for the LDAP client (`Build`) and for
-- the objects in it (`GetDistinguishedName`).
use text.Mathlib.TextLemmas.{append_assoc, append_cancel_left}
use openldap_operator.Base.{ℕ, String, ◌<>◌, ◌≡◌, sym, ap, ◌∙◌, List, [], ◌∷◌}
use openldap_operator.Go.Strings.Pieces.{Avoids, join-split, replace_all-injective}
use openldap_operator.Api.{LdapDirectory, LdapObject, ldap_object, Reader}
use openldap_operator.Go.{ok}
use openldap_operator.Api.Naming.{directory_dn, get_distinguished_name}
use openldap_operator.Api.Naming.Chains.{
  rdn, dn_of, IsReadOnly, Chain, up, Chain-get_distinguished_name,
}
use openldap_operator.Ldap.Builder.{base_dn}

-- The base name of the client that `Build` makes is the distinguished name of the directory: the
-- spelling by `ReplaceAll` is the spelling by `Split` and `Join`, for every domain.
pub base_dn-directory_dn : (d : LdapDirectory) → base_dn d ≡ directory_dn d
unfolding base_dn directory_dn
base_dn-directory_dn d = ap (λ t. "dc=" <> t) (sym (join-split d.spec.domain b'.' ",dc="))

-- Two directories whose domains contain no comma have the same distinguished name only if their
-- domains are the same.
pub directory_dn-injective :
    (d e : LdapDirectory)
    → Avoids b',' d.spec.domain
    → Avoids b',' e.spec.domain
    → directory_dn d ≡ directory_dn e
    → d.spec.domain ≡ e.spec.domain
unfolding directory_dn
directory_dn-injective d e h k p =
    replace_all-injective d.spec.domain e.spec.domain b'.' "," "dc=" h k (
      sym (join-split d.spec.domain b'.' ",dc=")
      ∙ append_cancel_left "dc=" _ _ p
      ∙ join-split e.spec.domain b'.' ",dc=")

-- The parts of the names of the objects on the way up.
dn_of-suffix :
    (o : LdapObject) (os : List LdapObject) (d : LdapDirectory)
    → (prefix : String) × (dn_of (o ∷ os) d ≡ prefix <> ("," <> base_dn d))
unfolding dn_of
dn_of-suffix o [] d = (rdn o, ap (λ t. rdn o <> ("," <> t)) (sym (base_dn-directory_dn d)))
dn_of-suffix o (p ∷ os) d =
    let (prefix, e) = dn_of-suffix p os d in
    (
      rdn o <> ("," <> prefix),
      ap (λ t. rdn o <> ("," <> t)) e
          ∙ ap (λ t. rdn o <> t) (sym (append_assoc "," prefix _))
          ∙ sym (append_assoc (rdn o) _ _),
    )

Chain-suffix :
    {S : Type 0} {r : Reader S} {s : S} {o : LdapObject} {os : List LdapObject} {d : LdapDirectory}
    → Chain r s (ldap_object o) os d
    → (prefix : String) × (dn_of os d ≡ prefix <> ("," <> base_dn d))
Chain-suffix (up o {os} {d} above c) = dn_of-suffix o os d

-- Where lookups leave the world alone, the name that `GetDistinguishedName` returns for an object
-- ends in a comma and the base name of the client that `Build` makes for the directory at the end
-- of a way up from the object.
pub get_distinguished_name-base_dn :
    {S : Type 0} (r : Reader S)
    → IsReadOnly r
    → (fuel : ℕ) (s t : S) (o : LdapObject) {dn : String}
    → get_distinguished_name r fuel (ldap_object o) s ≡ (ok dn, t)
    → (os : List LdapObject) × (d : LdapDirectory) × (prefix : String) × Chain r s
        (ldap_object o)
        os
        d
      × (dn ≡ prefix <> ("," <> base_dn d))
get_distinguished_name-base_dn r q fuel s t o h =
    let (os, d, c, e) = Chain-get_distinguished_name r q fuel s t (ldap_object o) h in
    let (prefix, e') = Chain-suffix c in (os, d, prefix, c, e ∙ e')
