-- ===== src/Ldap/Upsert/Stored.antt =====
-- What the directory holds under the name of an entry after CreateOrUpdateEntry of
-- internal/ldap/client.go.
use openldap_operator.Base.{
  String, ◌==◌, ◌≡◌, Bool, true, not, Option, some, List, [], ◌∷◌, if◌then◌else◌,
}
use openldap_operator.Go.{Error, M, pure, ◌>>=◌}
use openldap_operator.Go.Preserves.{Preserves}
use openldap_operator.Ldap.{User, Entry}
use openldap_operator.Ldap.Goldap.{Conn, SearchEntry, Goldap}
use openldap_operator.Ldap.Client.{Client}
use openldap_operator.Ldap.Upsert.{set_password}
use openldap_operator.Ldap.Upsert.Modifications.{Values, SameMembers}
use openldap_operator.Ldap.Upsert.Updates.{Shows}

-- What is found first is what the directory holds.
abbrev IsHeld : Entry → Option Values → List SearchEntry → Type 0
IsHeld x o [] = Unit
IsHeld x o (e ∷ es) = (v : Values) × (o ≡ some v) × Shows x e v

module _ {S : Type 0} (g : Goldap S) (set_equal : List String → List String → Bool)
    (lawful : (xs ys : List String) → set_equal xs ys ≡ true → SameMembers xs ys)
    (held : S → Option Values) where
  -- The password of a new user.
  first_password : Conn → User → M S Error (Unit {0})
  first_password conn u = if not (u.password == "") then set_password g conn u else pure tt
