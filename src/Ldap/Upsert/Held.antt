-- ===== src/Ldap/Upsert/Held.antt =====
-- What the directory holds under the name of an entry, and what the requests of
-- internal/ldap/client.go make of it.
use openldap_operator.Base.{
  arith, String, ◌<>◌, ◌==◌, ◌≡◌, refl, sym, ap, ◌∙◌, Bool, true, Option, some, List, [], ◌∷◌,
  Bool-cases, inl, inr,
}
use openldap_operator.Go.{Result, ok, M, pure, call_or}
use openldap_operator.Go.Calls.{call_or-eq-ok}
use openldap_operator.Go.Preserves.{Preserves}
use openldap_operator.Ldap.{Entry, organizational_unit, group, user}
use openldap_operator.Ldap.Goldap.{
  Conn, SearchRequest, SearchEntry, Change, AddRequest, ModifyRequest, Goldap, whole_subtree,
  never_deref_aliases,
}
use openldap_operator.Ldap.Preserving.{SessionPreserves}
use openldap_operator.Ldap.Upsert.{if_changed, modify_if_changed}
use openldap_operator.Ldap.Upsert.Created.{entry_search}
use openldap_operator.Ldap.Upsert.Requests.{
  optional_attribute, organizational_unit_add, group_add, user_add, organizational_unit_search,
  group_search, user_search, organizational_unit_modify, group_modify, user_modify,
  optional_attribute_modifications, required_attribute_modifications,
}
use openldap_operator.Ldap.Upsert.RoundTrip.{values_of, entry_add}
use openldap_operator.Ldap.Upsert.Modifications.{Values, optional_values, replay, SameMembers}
use openldap_operator.Ldap.Upsert.Updates.{entry_modify, Shows, Updated, entry_modify-Updated}

-- The attributes that an entry asks for, but the password. An optional one that is empty is absent.
abbrev pub AsWanted : Entry → Values → Type 0
AsWanted (organizational_unit ou) w = w "description" ≡ optional_values ou.description
AsWanted (group gr) w =
    (w "description" ≡ optional_values gr.description) × SameMembers (w "member") gr.members
AsWanted (user u) w =
    (w "cn" ≡ u.name ∷ []) × (w "sn" ≡ u.surname ∷ []) × (w "mail" ≡ optional_values u.email)

Updated-AsWanted : (x : Entry) (v w : Values) → Updated x v w → AsWanted x w
Updated-AsWanted (organizational_unit ou) v w h = ap (λ x. x "description") h
Updated-AsWanted (group gr) v w (d, m, _) = (d, m)
Updated-AsWanted (user u) v w h = (ap (λ x. x "cn") h, ap (λ x. x "sn") h, ap (λ x. x "mail") h)

-- What the server keeps for an add request is as wanted.
added-AsWanted : (x : Entry) → AsWanted x (values_of (entry_add x).attributes)
unfolding entry_add organizational_unit_add group_add user_add optional_attribute values_of
added-AsWanted (organizational_unit ou) = elim (Bool-cases (ou.description == "")) [
  | inl e ↦ rw e refl
  | inr e ↦ rw e refl
]
added-AsWanted (group gr) = elim (Bool-cases (gr.description == "")) [
  | inl e ↦ rw e (refl, λ m. refl)
  | inr e ↦ rw e (refl, λ m. refl)
]
added-AsWanted (user u) = elim (Bool-cases (u.email == "")) [
  | inl e ↦ rw e (refl, refl, refl)
  | inr e ↦ rw e (refl, refl, refl)
]

-- The name of an entry.
abbrev pub entry_dn : Entry → String
entry_dn (organizational_unit ou) = ou.distinguished_name
entry_dn (group gr) = gr.distinguished_name
entry_dn (user u) = u.distinguished_name

-- A search below the name of an entry, by its object class and the attribute that names it, for the
-- attributes that an update looks at.
abbrev pub wanted_search : Entry → SearchRequest
wanted_search (organizational_unit ou) = record {
  base_dn = ou.distinguished_name;
  scope = whole_subtree;
  deref_aliases = never_deref_aliases;
  size_limit = 0;
  filter = "(&(objectClass=organizationalUnit)(ou=" <> (ou.name <> "))");
  attributes = "dn" ∷ "ou" ∷ "description" ∷ [];
}
wanted_search (group gr) = record {
  base_dn = gr.distinguished_name;
  scope = whole_subtree;
  deref_aliases = never_deref_aliases;
  size_limit = 0;
  filter = "(&(objectClass=groupOfNames)(cn=" <> (gr.name <> "))");
  attributes = "dn" ∷ "cn" ∷ "description" ∷ "member" ∷ [];
}
wanted_search (user u) = record {
  base_dn = u.distinguished_name;
  scope = whole_subtree;
  deref_aliases = never_deref_aliases;
  size_limit = 0;
  filter = "(&(objectClass=inetOrgPerson)(uid=" <> (u.username <> "))");
  attributes = "dn" ∷ "uid" ∷ "cn" ∷ "sn" ∷ "mail" ∷ [];
}

pub entry_search-wanted : (x : Entry) → entry_search x ≡ wanted_search x
unfolding entry_search organizational_unit_search group_search user_search
entry_search-wanted (organizational_unit ou) = refl
entry_search-wanted (group gr) = refl
entry_search-wanted (user u) = refl

entry_add-dn : (x : Entry) → (entry_add x).dn ≡ entry_dn x
unfolding entry_add organizational_unit_add group_add user_add optional_attribute
entry_add-dn (organizational_unit ou) = ground arith
entry_add-dn (group gr) = ground arith
entry_add-dn (user u) = ground arith

optional-dn :
    (r : ModifyRequest) (name existing desired : String)
    → (optional_attribute_modifications r name existing desired).dn ≡ r.dn
unfolding optional_attribute_modifications
optional-dn r name existing desired = ground arith

required-dn :
    (r : ModifyRequest) (name existing desired : String)
    → (required_attribute_modifications r name existing desired).dn ≡ r.dn
unfolding required_attribute_modifications
required-dn r name existing desired = ground arith

-- An update is sent to the name of its entry.
entry_modify-dn :
    (set_equal : List String → List String → Bool) (x : Entry) (e : SearchEntry)
    → (entry_modify set_equal x e).dn ≡ entry_dn x
unfolding entry_modify organizational_unit_modify group_modify user_modify
entry_modify-dn set_equal (organizational_unit ou) e = search optional-dn
entry_modify-dn set_equal (group gr) e = ground (
  arith,
  optional-dn (record { dn = gr.distinguished_name; changes = [] }) "description"
      (e.get_attribute_value "description") gr.description,
)
entry_modify-dn set_equal (user u) e =
    let r : ModifyRequest = record { dn = u.distinguished_name; changes = [] } in
    let cn = required_attribute_modifications r "cn" (e.get_attribute_value "cn") u.name in
    let sn = required_attribute_modifications cn "sn" (e.get_attribute_value "sn") u.surname in
    optional-dn sn "mail" (e.get_attribute_value "mail") u.email
    ∙ (required-dn cn "sn" (e.get_attribute_value "sn") u.surname
        ∙ required-dn r "cn" (e.get_attribute_value "cn") u.name)

-- A view of what a directory holds under the name of an entry, but a password: a search below that
-- name finds the entry first, and shows what the update looks at; to add an entry of that name, and
-- to modify the one that is there, have their effects (RFC 4511, sections 4.6 and 4.7), and binds,
-- searches and the like do not change it.
pub record Holds {S : Type 0} (g : Goldap S) (x : Entry) (held : S → Option Values) : Type 0 where
  pub session : (o : Option Values) → SessionPreserves g (λ s. held s ≡ o)
  pub found :
      (conn : Conn) (s : S) (e : SearchEntry) (es : List SearchEntry)
      → (g.search conn (wanted_search x) s).0.entries ≡ some (e ∷ es)
      → (v : Values) × (held s ≡ some v) × Shows x e v
  pub added :
      (conn : Conn) (r : AddRequest) (s t : S)
      → r.dn ≡ entry_dn x
      → g.add conn r s ≡ (ok tt, t)
      → held t ≡ some (values_of r.attributes)
  pub modified :
      (conn : Conn) (r : ModifyRequest) (s t : S) (v : Values)
      → r.dn ≡ entry_dn x
      → held s ≡ some v
      → g.modify conn r s ≡ (ok tt, t)
      → held t ≡ some (replay r.changes v)

-- The directory holds the entry as wanted.
abbrev pub HeldAsWanted : Entry → Option Values → Type 0
HeldAsWanted x o = (w : Values) × (o ≡ some w) × AsWanted x w

module _ {S : Type 0} (g : Goldap S) (held : S → Option Values) where
  -- A view that a call preserves is as it was.
  pub kept :
      {E A : Type 0} (m : M S E A)
      → ((o : Option Values) → Preserves (λ s. held s ≡ o) m)
      → (s t : S) {r : Result E A} → m s ≡ (r, t)
      → held t ≡ held s
  kept m h s t e = ap (λ p. held p.1) (sym e) ∙ (h (held s)).at s refl

module _ {S : Type 0} (g : Goldap S) (set_equal : List String → List String → Bool)
    (lawful : (xs ys : List String) → set_equal xs ys ≡ true → SameMembers xs ys) (x : Entry)
    (held : S → Option Values) (holds : Holds g x held) where
  pub modified-held :
      (conn : Conn) (text : String) (r : ModifyRequest) (s t : S) (v : Values)
      → r.dn ≡ entry_dn x
      → held s ≡ some v
      → modify_if_changed g conn text r s ≡ (ok tt, t)
      → held t ≡ some (replay r.changes v)
  unfolding modify_if_changed if_changed replay pure
  modified-held conn text r s t v named h e = go r.changes refl e
    where
      go :
          (cs : List Change)
          → r.changes ≡ cs
          → if_changed g cs (call_or text (g.modify conn r)) s ≡ (ok tt, t)
          → held t ≡ some (replay cs v)
      go [] k e = ap (λ p. held p.1) (sym e) ∙ h
      go (c ∷ cs) k e =
          holds.modified conn r s t v named h (call_or-eq-ok text (g.modify conn r) e)
          ∙ ap (λ ds. some (replay ds v)) k

  -- After an update that was sent, and what leaves the view alone.
  pub updated-held :
      (conn : Conn) (text : String) (e : SearchEntry) (s t u : S) (v : Values)
      → held s ≡ some v
      → Shows x e v
      → modify_if_changed g conn text (entry_modify set_equal x e) s ≡ (ok tt, t)
      → held u ≡ held t
      → HeldAsWanted x (held u)
  updated-held conn text e s t u v h shows sent same = (
    replay (entry_modify set_equal x e).changes v,
    same
        ∙ modified-held conn text (entry_modify set_equal x e) s t v (entry_modify-dn set_equal x e)
            h sent,
    Updated-AsWanted x v _ (entry_modify-Updated set_equal lawful x e v shows),
  )

  -- After an add request that was sent, and what leaves the view alone.
  pub added-held :
      (conn : Conn) (text : String) (s t u : S)
      → call_or text (g.add conn (entry_add x)) s ≡ (ok tt, t)
      → held u ≡ held t
      → HeldAsWanted x (held u)
  added-held conn text s t u sent same = (
    values_of (entry_add x).attributes,
    same
        ∙ holds.added conn (entry_add x) s t (entry_add-dn x)
            (call_or-eq-ok text (g.add conn (entry_add x)) sent),
    added-AsWanted x,
  )
