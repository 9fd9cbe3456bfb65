-- ===== src/Ldap/Upsert/Unneeded.antt =====
-- When the update of an entry by internal/ldap/client.go needs no request.
use openldap_operator.Base.{
  String, ◌≡◌, ◌↔◌, refl, Bool, true, false, List, [], ◌∷◌, ◌++◌, arith, eq_iff, Bool-cases, inl,
  inr,
}
use openldap_operator.Ldap.Goldap.{
  Change, add, delete, replace, ModifyRequest, with_change, SearchEntry,
}
use openldap_operator.Ldap.{Entry, organizational_unit, group, user}
use openldap_operator.Ldap.Upsert.Requests.{
  new_modify_request, optional_attribute_modifications, required_attribute_modifications,
  organizational_unit_modify, group_modify, user_modify,
}
use openldap_operator.Ldap.Upsert.Updates.{entry_modify}

apart : {b : Bool} → b ≡ true → b ≡ false → ⊥
apart h k = cc

-- An entry whose update makes no change: what the update looks at is as wanted, and the optional
-- attribute, where there is one, is empty.
abbrev pub NeedsNothing : (List String → List String → Bool) → Entry → SearchEntry → Type 0
NeedsNothing set_equal (organizational_unit ou) e =
    (e.get_attribute_value "description" ≡ "") × (ou.description ≡ "")
NeedsNothing set_equal (group gr) e =
    (e.get_attribute_value "description" ≡ "")
    × (gr.description ≡ "")
    × (set_equal (e.get_attribute_values "member") gr.members ≡ true)
NeedsNothing set_equal (user u) e =
    (e.get_attribute_value "cn" ≡ u.name)
    × (e.get_attribute_value "sn" ≡ u.surname)
    × (e.get_attribute_value "mail" ≡ "")
    × (u.email ≡ "")

with_change-nonempty : (r : ModifyRequest) (c : Change) → ¬ ((with_change r c).changes ≡ [])
with_change-nonempty r c e = go r.changes e
  where
    go : (cs : List Change) → ¬ (cs ++ (c ∷ []) ≡ [])
    go [] e = cc
    go (d ∷ ds) e = cc

optional-nil :
    (r : ModifyRequest) (name existing desired : String)
    → ((optional_attribute_modifications r name existing desired).changes ≡ [])
      ↔ ((r.changes ≡ []) × (existing ≡ "") × (desired ≡ ""))
unfolding optional_attribute_modifications
optional-nil r name existing desired = (
  λ e. ground (
    arith,
    e,
    eq_iff desired "",
    eq_iff existing "",
    with_change-nonempty r (delete name []),
    with_change-nonempty r (add name (desired ∷ [])),
    with_change-nonempty r (replace name (desired ∷ [])),
  ),
  λ (h, x, d). ground (arith, h, x, d, eq_iff desired "", eq_iff existing ""),
)

required-nil :
    (r : ModifyRequest) (name existing desired : String)
    → ((required_attribute_modifications r name existing desired).changes ≡ [])
      ↔ ((r.changes ≡ []) × (existing ≡ desired))
unfolding required_attribute_modifications
required-nil r name existing desired = (
  λ e.
      ground
        (arith, e, eq_iff existing desired, with_change-nonempty r (replace name (desired ∷ []))),
  λ (h, x). ground (arith, h, x, eq_iff existing desired),
)

-- The request that updates an entry has no change exactly if the found entry shows the full name and
-- surname of a user and, by the given comparison, the members of a group as wanted, and the
-- description or mail address is empty, both in the found entry and as wanted: an optional attribute
-- that is not empty is written by every update, also where it is as wanted.
pub entry_modify-nil :
    (set_equal : List String → List String → Bool) (x : Entry) (e : SearchEntry)
    → ((entry_modify set_equal x e).changes ≡ []) ↔ NeedsNothing set_equal x e
unfolding entry_modify organizational_unit_modify group_modify user_modify
entry_modify-nil set_equal (organizational_unit ou) e =
    let i =
      optional-nil (new_modify_request ou.distinguished_name) "description"
        (e.get_attribute_value "description") ou.description in
    (λ h. let (_, x, d) = i.0 h in (x, d), λ (x, d). i.1 (refl, x, d))
entry_modify-nil set_equal (group gr) e =
    let r =
      optional_attribute_modifications (new_modify_request gr.distinguished_name) "description"
        (e.get_attribute_value "description") gr.description in
    let i =
      optional-nil (new_modify_request gr.distinguished_name) "description"
        (e.get_attribute_value "description") gr.description in
    elim (Bool-cases (set_equal (e.get_attribute_values "member") gr.members)) [
      | inl same ↦
          rw same (λ h. let (_, x, d) = i.0 h in (x, d, refl), λ (x, d, _). i.1 (refl, x, d))
      | inr differ ↦ rw differ (
        λ h. absurd (with_change-nonempty r (replace "member" gr.members) h),
        λ (x, d, same). absurd (apart same refl),
      )
    ]
entry_modify-nil set_equal (user u) e =
    let r = new_modify_request u.distinguished_name in
    let r1 = required_attribute_modifications r "cn" (e.get_attribute_value "cn") u.name in
    let r2 = required_attribute_modifications r1 "sn" (e.get_attribute_value "sn") u.surname in
    let i1 = required-nil r "cn" (e.get_attribute_value "cn") u.name in
    let i2 = required-nil r1 "sn" (e.get_attribute_value "sn") u.surname in
    let i3 = optional-nil r2 "mail" (e.get_attribute_value "mail") u.email in
    (
      λ h. let (h2, x, d) = i3.0 h in let (h1, s) = i2.0 h2 in let (_, c) = i1.0 h1 in (c, s, x, d),
      λ (c, s, x, d). i3.1 (i2.1 (i1.1 (refl, c), s), x, d),
    )
