-- ===== src/Ldap/Upsert/Updates.antt =====
-- The update of an entry of each type by internal/ldap/client.go: the request, and what it makes of
-- the stored entry.
use openldap_operator.Base.{String, ◌==◌, ◌≡◌, Bool, true, false, List, [], ◌∷◌}
use openldap_operator.Ldap.Goldap.{ModifyRequest, SearchEntry}
use openldap_operator.Ldap.{Entry, organizational_unit, group, user}
use openldap_operator.Ldap.Upsert.Requests.{organizational_unit_modify, group_modify, user_modify}
use openldap_operator.Ldap.Upsert.Modifications.{
  Values, set_values, optional_values, replay, SameMembers, organizational_unit_modify-Values,
  group_modify-Values, user_modify-Values,
}

-- The request that updates an entry found by its search.
unfoldable pub entry_modify :
    (List String → List String → Bool) → Entry → SearchEntry → ModifyRequest
unfolding organizational_unit_modify group_modify user_modify
entry_modify set_equal (organizational_unit ou) e = organizational_unit_modify ou e
entry_modify set_equal (group gr) e = group_modify set_equal gr e
entry_modify set_equal (user u) e = user_modify u e

-- The found entry shows what the directory holds, of the attributes that an update looks at.
abbrev pub Shows : Entry → SearchEntry → Values → Type 0
Shows (organizational_unit ou) e v =
    v "description" ≡ optional_values (e.get_attribute_value "description")
Shows (group gr) e v =
    (v "description" ≡ optional_values (e.get_attribute_value "description"))
    × (v "member" ≡ e.get_attribute_values "member")
Shows (user u) e v =
    (v "cn" ≡ e.get_attribute_value "cn" ∷ [])
    × (v "sn" ≡ e.get_attribute_value "sn" ∷ [])
    × (v "mail" ≡ optional_values (e.get_attribute_value "mail"))

-- What the update of an entry is to make of the values `v`: `w`.
abbrev pub Updated : Entry → Values → Values → Type 0
Updated (organizational_unit ou) v w =
    w ≡ set_values v "description" (optional_values ou.description)
Updated (group gr) v w =
    (w "description" ≡ optional_values gr.description)
    × SameMembers (w "member") gr.members
    × ((a : String) → (a == "description") ≡ false → (a == "member") ≡ false → w a ≡ v a)
Updated (user u) v w =
    w
    ≡ set_values (set_values (set_values v "cn" (u.name ∷ [])) "sn" (u.surname ∷ [])) "mail"
        (optional_values u.email)

-- Where the found entry shows what the directory holds, and the comparison of sets is right where it
-- says that two are equal: the changes of the request bring the description of a unit to the wanted
-- one, and all else is as before; they bring the description of a group to the wanted one and its
-- members to those wanted, up to order and repetition, and all else is as before; and they bring the
-- full name, the surname and the mail address of a user to the wanted ones, and all else is as before.
-- A description or mail address that is wanted empty is taken away.
pub entry_modify-Updated :
    (set_equal : List String → List String → Bool)
    → ((xs ys : List String) → set_equal xs ys ≡ true → SameMembers xs ys)
    → (x : Entry) (e : SearchEntry) (v : Values) → Shows x e v
    → Updated x v (replay (entry_modify set_equal x e).changes v)
unfolding entry_modify
entry_modify-Updated set_equal lawful (organizational_unit ou) e v h =
    organizational_unit_modify-Values ou e v h
entry_modify-Updated set_equal lawful (group gr) e v (h, k) =
    group_modify-Values set_equal lawful gr e v h k
entry_modify-Updated set_equal lawful (user u) e v (hc, hs, hm) = user_modify-Values u e v hc hs hm
