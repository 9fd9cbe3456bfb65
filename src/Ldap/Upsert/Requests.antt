-- ===== src/Ldap/Upsert/Requests.antt =====
-- The search, add and modify requests that the writes of internal/ldap/client.go build.
use openldap_operator.Base.{String, ◌<>◌, ◌==◌, Bool, not, List, [], ◌∷◌, if◌then◌else◌}
use openldap_operator.Ldap.Goldap.{
  AddRequest, attribute, add, delete, replace, ModifyRequest, with_change, SearchEntry,
  SearchRequest, whole_subtree, never_deref_aliases,
}
use openldap_operator.Ldap.{OrganizationalUnit, Group, User}

abbrev pub new_add_request : String → AddRequest
new_add_request dn = record { dn = dn; attributes = [] }

abbrev pub new_modify_request : String → ModifyRequest
new_modify_request dn = record { dn = dn; changes = [] }

-- A search for the entries under a name that match a filter.
abbrev pub search_request : String → String → List String → SearchRequest
search_request dn filter attributes = record {
  base_dn = dn;
  scope = whole_subtree;
  deref_aliases = never_deref_aliases;
  size_limit = 0;
  filter = filter;
  attributes = attributes;
}

unfoldable pub organizational_unit_search : OrganizationalUnit → SearchRequest
organizational_unit_search ou =
    search_request ou.distinguished_name
      ("(&(objectClass=organizationalUnit)(ou=" <> (ou.name <> "))"))
      ("dn" ∷ "ou" ∷ "description" ∷ [])

unfoldable pub group_search : Group → SearchRequest
group_search gr =
    search_request gr.distinguished_name ("(&(objectClass=groupOfNames)(cn=" <> (gr.name <> "))"))
      ("dn" ∷ "cn" ∷ "description" ∷ "member" ∷ [])

unfoldable pub user_search : User → SearchRequest
user_search u =
    search_request u.distinguished_name
      ("(&(objectClass=inetOrgPerson)(uid=" <> (u.username <> "))"))
      ("dn" ∷ "uid" ∷ "cn" ∷ "sn" ∷ "mail" ∷ [])

-- `if value != "" { addRequest.Attribute(name, []string{value}) }`
unfoldable pub optional_attribute : AddRequest → String → String → AddRequest
optional_attribute r name value = if not (value == "") then attribute r name (value ∷ []) else r

-- `optionalAttributeModifications`
unfoldable pub optional_attribute_modifications :
    ModifyRequest → String → String → String → ModifyRequest
optional_attribute_modifications r name existing desired =
    if desired == ""
    then (if not (existing == "") then with_change r (delete name []) else r)
    else if existing == ""
    then with_change r (add name (desired ∷ []))
    else with_change r (replace name (desired ∷ []))

-- `if existing != desired { modifyRequest.Replace(name, []string{desired}) }`
unfoldable pub required_attribute_modifications :
    ModifyRequest → String → String → String → ModifyRequest
required_attribute_modifications r name existing desired =
    if not (existing == desired) then with_change r (replace name (desired ∷ [])) else r

-- Of `createOrUpdateOrganizationalUnit`
unfoldable pub organizational_unit_add : OrganizationalUnit → AddRequest
unfolding optional_attribute
organizational_unit_add ou =
    let r = new_add_request ou.distinguished_name in
    let r = attribute r "objectClass" ("top" ∷ "organizationalUnit" ∷ []) in
    let r = attribute r "ou" (ou.name ∷ []) in optional_attribute r "description" ou.description

unfoldable pub organizational_unit_modify : OrganizationalUnit → SearchEntry → ModifyRequest
unfolding optional_attribute_modifications
organizational_unit_modify ou entry =
    optional_attribute_modifications (new_modify_request ou.distinguished_name) "description"
      (entry.get_attribute_value "description") ou.description

-- Of `createOrUpdateGroup`
unfoldable pub group_add : Group → AddRequest
unfolding optional_attribute
group_add gr =
    let r = new_add_request gr.distinguished_name in
    let r = attribute r "objectClass" ("top" ∷ "groupOfNames" ∷ []) in
    let r = attribute r "cn" (gr.name ∷ []) in
    let r = attribute r "member" gr.members in optional_attribute r "description" gr.description

-- `set_equal` is `sets.New(a...).Equal(sets.New(b...))` of k8s.io/apimachinery.
unfoldable pub group_modify :
    (List String → List String → Bool) → Group → SearchEntry → ModifyRequest
unfolding optional_attribute_modifications
group_modify set_equal gr entry =
    let r =
      optional_attribute_modifications (new_modify_request gr.distinguished_name) "description"
        (entry.get_attribute_value "description") gr.description in
    if not (set_equal (entry.get_attribute_values "member") gr.members)
    then with_change r (replace "member" gr.members)
    else r

-- Of `createOrUpdateUser`
unfoldable pub user_add : User → AddRequest
unfolding optional_attribute
user_add u =
    let r = new_add_request u.distinguished_name in
    let r =
      attribute r "objectClass"
        ("top" ∷ "person" ∷ "organizationalPerson" ∷ "inetOrgPerson" ∷ []) in
    let r = attribute r "uid" (u.username ∷ []) in
    let r = attribute r "cn" (u.name ∷ []) in
    let r = attribute r "sn" (u.surname ∷ []) in optional_attribute r "mail" u.email

unfoldable pub user_modify : User → SearchEntry → ModifyRequest
unfolding required_attribute_modifications optional_attribute_modifications
user_modify u entry =
    let r = new_modify_request u.distinguished_name in
    let r = required_attribute_modifications r "cn" (entry.get_attribute_value "cn") u.name in
    let r = required_attribute_modifications r "sn" (entry.get_attribute_value "sn") u.surname in
    optional_attribute_modifications r "mail" (entry.get_attribute_value "mail") u.email
