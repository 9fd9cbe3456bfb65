-- ===== src/Ldap/Upsert/Modifications.antt =====
-- What the modify requests of internal/ldap/client.go do to the attributes of an entry. The effect
-- of a request is that of RFC 4511, section 4.6, on the values of each attribute.
use openldap_operator.Base.{
  String, ◌==◌, ◌≡◌, ◌⊎◌, refl, ap, ◌∙◌, Bool, true, false, List, [], ◌∷◌, ◌++◌, arith,
  if◌then◌else◌, eq_iff, contains, Bool-cases, inl, inr,
}
use mathlib.Core.Path.{fun_ext}
use openldap_operator.Ldap.Goldap.{
  Change, add, delete, replace, ModifyRequest, with_change, SearchEntry,
}
use openldap_operator.Ldap.{OrganizationalUnit, Group, User}
use openldap_operator.Ldap.Upsert.Requests.{
  new_modify_request, optional_attribute_modifications, required_attribute_modifications,
  organizational_unit_modify, group_modify, user_modify,
}

-- The values of each attribute of an entry.
abbrev pub Values : Type 0
Values = String → List String

abbrev pub set_values : Values → String → List String → Values
set_values v name ws a = if a == name then ws else v a

-- The values without those listed.
unfoldable pub without : List String → List String → List String
unfolding contains
without ws [] = []
without ws (x ∷ xs) = let rest = without ws xs in if contains ws x then rest else x ∷ rest

-- One modification: `add` adds values, `delete` takes away those listed or all, `replace` puts
-- values in place of all.
unfoldable pub apply_change : Change → Values → Values
unfolding without
apply_change (add name ws) v = set_values v name (v name ++ ws)
apply_change (delete name []) v = set_values v name []
apply_change (delete name (w ∷ ws)) v = set_values v name (without (w ∷ ws) (v name))
apply_change (replace name ws) v = set_values v name ws

unfoldable pub replay : List Change → Values → Values
unfolding apply_change
replay [] v = v
replay (c ∷ cs) v = replay cs (apply_change c v)

-- An optional attribute has one value, or none for the empty text.
abbrev pub optional_values : String → List String
optional_values t = if t == "" then [] else t ∷ []

replay-append : (cs ds : List Change) (v : Values) → replay (cs ++ ds) v ≡ replay ds (replay cs v)
unfolding replay
replay-append [] ds v = refl
replay-append (c ∷ cs) ds v = replay-append cs ds (apply_change c v)

module _ (r : ModifyRequest) (v : Values) (name existing desired : String) where
  added :
      (a : String) (c : Change)
      → replay (with_change r c).changes v a ≡ apply_change c (replay r.changes v) a
  unfolding replay
  added a c = ap (λ w. w a) (replay-append r.changes (c ∷ []) v)

  replay-optional :
      replay r.changes v name ≡ optional_values existing
      → (a : String)
      → replay (optional_attribute_modifications r name existing desired).changes v a
        ≡ set_values (replay r.changes v) name (optional_values desired) a
  unfolding optional_attribute_modifications replay
  replay-optional h a = ground (
    arith,
    h,
    eq_iff a name,
    eq_iff existing "",
    added a (delete name []),
    added a (add name (desired ∷ [])),
    added a (replace name (desired ∷ [])),
  )

  replay-required :
      replay r.changes v name ≡ existing ∷ []
      → (a : String)
      → replay (required_attribute_modifications r name existing desired).changes v a
        ≡ set_values (replay r.changes v) name (desired ∷ []) a
  unfolding required_attribute_modifications replay
  replay-required h a =
      ground
        (arith, h, eq_iff a name, eq_iff existing desired, added a (replace name (desired ∷ [])))

-- The same from what the changes so far come to.
module _ (r : ModifyRequest) (v w : Values) (name existing desired : String) where
  then_optional :
      replay r.changes v ≡ w
      → w name ≡ optional_values existing
      → replay (optional_attribute_modifications r name existing desired).changes v
        ≡ set_values w name (optional_values desired)
  then_optional e h =
      fun_ext (λ a. replay-optional r v name existing desired (ap (λ x. x name) e ∙ h) a)
      ∙ ap (λ x. set_values x name (optional_values desired)) e

  then_required :
      replay r.changes v ≡ w
      → w name ≡ existing ∷ []
      → replay (required_attribute_modifications r name existing desired).changes v
        ≡ set_values w name (desired ∷ [])
  then_required e h =
      fun_ext (λ a. replay-required r v name existing desired (ap (λ x. x name) e ∙ h) a)
      ∙ ap (λ x. set_values x name (desired ∷ [])) e

then_replace :
    (r : ModifyRequest) (v w : Values) (name : String) (ws : List String)
    → replay r.changes v ≡ w
    → replay (with_change r (replace name ws)).changes v ≡ set_values w name ws
unfolding replay
then_replace r v w name ws e =
    replay-append r.changes (replace name ws ∷ []) v ∙ ap (λ x. set_values x name ws) e

-- The update of an organizational unit, where the description that the found entry `e` shows is what
-- the directory holds: after the changes of the request, the description is the wanted one (none, if
-- that is empty), and all else is as before.
pub organizational_unit_modify-Values :
    (ou : OrganizationalUnit) (e : SearchEntry) (v : Values)
    → v "description" ≡ optional_values (e.get_attribute_value "description")
    → replay (organizational_unit_modify ou e).changes v
      ≡ set_values v "description" (optional_values ou.description)
unfolding organizational_unit_modify replay
organizational_unit_modify-Values ou e v h =
    then_optional (new_modify_request ou.distinguished_name) v v "description" _ ou.description refl
      h

-- What `sets.New(a...).Equal(sets.New(b...))` decides.
abbrev pub SameMembers : List String → List String → Type 0
SameMembers xs ys = (m : String) → contains xs m ≡ contains ys m

-- The request for a group's description, to which its members may be added.
abbrev description_modify : Group → SearchEntry → ModifyRequest
description_modify gr e =
    optional_attribute_modifications (new_modify_request gr.distinguished_name) "description"
      (e.get_attribute_value "description") gr.description

-- The changes set the description, and unless the members are the same set, the members.
pub group_modify-cases :
    (set_equal : List String → List String → Bool) (gr : Group) (e : SearchEntry) (v : Values)
    → v "description" ≡ optional_values (e.get_attribute_value "description")
    → ((set_equal (e.get_attribute_values "member") gr.members ≡ true)
        × (replay (group_modify set_equal gr e).changes v
            ≡ set_values v "description" (optional_values gr.description)))
      ⊎ ((set_equal (e.get_attribute_values "member") gr.members ≡ false)
          × (replay (group_modify set_equal gr e).changes v
              ≡ set_values
                  (set_values v "description" (optional_values gr.description))
                  "member"
                  gr.members))
unfolding group_modify replay
group_modify-cases set_equal gr e v h =
    elim (Bool-cases (set_equal (e.get_attribute_values "member") gr.members)) [
      | inl same ↦ inl (same, rw (same, group_modify) described)
      | inr differ ↦ inr (differ, rw (differ, group_modify) replaced)
    ]
  where
    described :
        replay (description_modify gr e).changes v
        ≡ set_values v "description" (optional_values gr.description)
    described =
        then_optional (new_modify_request gr.distinguished_name) v v "description" _ gr.description
          refl h

    replaced :
        replay (with_change (description_modify gr e) (replace "member" gr.members)).changes v
        ≡ set_values
            (set_values v "description" (optional_values gr.description))
            "member"
            gr.members
    replaced = then_replace (description_modify gr e) v _ "member" gr.members described

-- The update of a group, where the description and the members that the found entry `e` shows are
-- what the directory holds, and the comparison of sets is right where it says that two are equal:
-- after the changes of the request, the description is the wanted one (none, if that is empty), the
-- members are those of the group, up to order and repetition, and all else is as before.
pub group_modify-Values :
    (set_equal : List String → List String → Bool)
    → ((xs ys : List String) → set_equal xs ys ≡ true → SameMembers xs ys)
    → (gr : Group) (e : SearchEntry) (v : Values)
    → v "description" ≡ optional_values (e.get_attribute_value "description")
    → v "member" ≡ e.get_attribute_values "member"
    → let w = replay (group_modify set_equal gr e).changes v in
      (w "description" ≡ optional_values gr.description)
      × SameMembers (w "member") gr.members
      × ((a : String) → (a == "description") ≡ false → (a == "member") ≡ false → w a ≡ v a)
group_modify-Values set_equal lawful gr e v h k = elim (group_modify-cases set_equal gr e v h) [
  | inl (same, w) ↦ (
    ap (λ x. x "description") w,
    λ m.
        ap (λ x. contains (x "member") m) w
        ∙ ap (λ ws. contains ws m) k
        ∙ lawful (e.get_attribute_values "member") gr.members same m,
    λ a n n'. rw w (rw n),
  )
  | inr (_, w) ↦ (
    ap (λ x. x "description") w,
    λ m. ap (λ x. contains (x "member") m) w,
    λ a n n'. rw w (rw (n, n')),
  )
]

-- The update of a user, where the full name, the surname and the mail address that the found entry
-- `e` shows are what the directory holds: after the changes of the request, these are the wanted
-- ones (no mail address, if that is empty), and all else is as before.
pub user_modify-Values :
    (u : User) (e : SearchEntry) (v : Values)
    → v "cn" ≡ e.get_attribute_value "cn" ∷ []
    → v "sn" ≡ e.get_attribute_value "sn" ∷ []
    → v "mail" ≡ optional_values (e.get_attribute_value "mail")
    → replay (user_modify u e).changes v
      ≡ set_values
          (set_values (set_values v "cn" (u.name ∷ [])) "sn" (u.surname ∷ []))
          "mail"
          (optional_values u.email)
unfolding user_modify replay
user_modify-Values u e v hc hs hm =
    then_optional _ v _ "mail" _ u.email
      (then_required _ v _ "sn" _ u.surname
        (then_required (new_modify_request u.distinguished_name) v v "cn" _ u.name refl hc) hs)
      hm
