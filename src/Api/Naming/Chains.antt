-- ===== src/Api/Naming/Chains.antt =====
-- What `GetDistinguishedName` computes: an object's chain of parents, up to a directory, and the
-- name that it spells.
use text.Mathlib.TextLemmas.{append_assoc}
use openldap_operator.Base.{
  Option-cases, inl, inr, subst, length, ℕ, zero, suc, ◌<◌, String, ◌<>◌, ◌≡◌, refl, ap, ◌∙◌, sym,
  true, none, some, List, [], ◌∷◌, arith,
}
use openldap_operator.Go.Calls.{>>=-ok, >>=-unfinished, >>=-eq-ok}
use openldap_operator.Go.{unfinished, Error, ok, M, pure, ◌>>=◌}
use openldap_operator.Api.{
  LdapDirectory, LdapObject, group, organizational_unit, user, get_ldap_object_spec,
  NamedLdapObject, directory, ldap_object, Object, named, Resolved, Reader, resolve_directory,
  ObjectReference, LocalObjectReference,
}
use openldap_operator.Api.Naming.{directory_dn, named_above, get_distinguished_name}

-- The object's own part of the name.
unfoldable pub rdn : LdapObject → String
rdn (group g) = "cn=" <> g.spec.name
rdn (organizational_unit ou) = "ou=" <> ou.spec.name
rdn (user u) = "uid=" <> u.spec.username

-- The parts of the objects on the way up, then the directory's name.
unfoldable pub dn_of : List LdapObject → LdapDirectory → String
unfolding rdn directory_dn
dn_of [] d = directory_dn d
dn_of (o ∷ os) d = rdn o <> ("," <> dn_of os d)

-- A world that a lookup does not change.
pub record IsReadOnly {S : Type 0} (r : Reader S) : Type 0 where
  pub object_same : (ref : ObjectReference) (o : Object) (s : S) → (r.resolve_object ref o s).1 ≡ s
  pub local_same :
      (ref : LocalObjectReference) (o : Object) (s : S) → (r.resolve_local_object ref o s).1 ≡ s

module _ {S : Type 0} (r : Reader S) where
  -- What the reference to the object above resolves to: the parent's if there is one.
  abbrev pub above_reply : LdapObject → S → Resolved × S
  above_reply o s = elim (get_ldap_object_spec o).parent_ref [
    | none ↦ resolve_directory r (get_ldap_object_spec o).directory_ref (named (ldap_object o)) s
    | some ref ↦ r.resolve_local_object ref (named (ldap_object o)) s
  ]

  pub record IsAbove (s : S) (o : LdapObject) (n : NamedLdapObject) : Type 0 where
    pub no_error : (above_reply o s).0.error ≡ none
    pub found : (above_reply o s).0.found ≡ true
    pub same_object : (above_reply o s).0.object ≡ some (named n)

  -- The way up from an object to a directory, in a world that lookups leave alone.
  pub data Chain (s : S) : NamedLdapObject → List LdapObject → LdapDirectory → Type 0 where
    at_directory : (d : LdapDirectory) → Chain s (directory d) [] d
    up :
        (o : LdapObject) {n : NamedLdapObject} {os : List LdapObject} {d : LdapDirectory}
        → IsAbove s o n
        → Chain s n os d
        → Chain s (ldap_object o) (o ∷ os) d

  above_of : LdapObject → M S Error NamedLdapObject
  unfolding named_above
  above_of o =
      let spec = get_ldap_object_spec o in
      named_above r (named (ldap_object o)) spec.parent_ref spec.directory_ref

  -- One step of the recursion, for the three types alike.
  get_distinguished_name-suc :
      (fuel : ℕ) (o : LdapObject) (s : S)
      → get_distinguished_name r (suc fuel) (ldap_object o) s
        ≡ (do n ← above_of o; dn ← get_distinguished_name r fuel n; pure (rdn o <> ("," <> dn))) s
  unfolding get_distinguished_name above_of rdn get_ldap_object_spec ◌>>=◌
  get_distinguished_name-suc fuel (group g) s = simp append_assoc
  get_distinguished_name-suc fuel (organizational_unit g) s = simp append_assoc
  get_distinguished_name-suc fuel (user g) s = simp append_assoc

  above_of-IsAbove :
      (s : S) (o : LdapObject) {n : NamedLdapObject}
      → IsAbove s o n
      → above_of o s ≡ (ok n, (above_reply o s).1)
  unfolding above_of ◌>>=◌
  above_of-IsAbove s o h = ground arith

  IsAbove-above_of :
      (s t : S) (o : LdapObject) {n : NamedLdapObject} → above_of o s ≡ (ok n, t) → IsAbove s o n
  unfolding above_of ◌>>=◌
  IsAbove-above_of s t o {n} h = record {
    no_error = ground arith;
    found = ground arith;
    same_object = ground arith;
  }

  module _ (q : IsReadOnly r) where
    above_reply-same : (s : S) (o : LdapObject) → (above_reply o s).1 ≡ s
    unfolding resolve_directory
    above_reply-same s o = elim (Option-cases (get_ldap_object_spec o).parent_ref) [
      | inl e ↦ rw (e, above_reply) (q.object_same _ _ s)
      | inr (ref, e) ↦ rw (e, above_reply) (q.local_same ref _ s)
    ]

    above_of-same :
        (s : S) (o : LdapObject) {n : NamedLdapObject} → IsAbove s o n → above_of o s ≡ (ok n, s)
    above_of-same s o {n} a = above_of-IsAbove s o a ∙ ap (λ t. (ok n, t)) (above_reply-same s o)

    -- Where lookups leave the world alone and lead from an object up to a directory,
    -- `GetDistinguishedName`, with more fuel than there are objects on the way, returns the parts of
    -- their names, in order, before the name of the directory.
    pub get_distinguished_name-Chain :
        (fuel : ℕ) (s : S) {n : NamedLdapObject} {os : List LdapObject} {d : LdapDirectory}
        → Chain s n os d
        → length os < fuel
        → get_distinguished_name r fuel n s ≡ (ok (dn_of os d), s)
    unfolding get_distinguished_name dn_of ◌>>=◌
    get_distinguished_name-Chain zero s c h = absurd (omega arith)
    get_distinguished_name-Chain (suc fuel) s (at_directory d) h = refl
    get_distinguished_name-Chain (suc fuel) s (up o {os} {d} above c) h =
        get_distinguished_name-suc fuel o s
        ∙ >>=-ok (above_of o) _ (above_of-same s o above)
        ∙ >>=-ok (get_distinguished_name r fuel _) _
            (get_distinguished_name-Chain fuel s c (omega arith))

    -- Where lookups leave the world alone, a name that `GetDistinguishedName` returns is spelled by a
    -- way up from the object to a directory.
    pub Chain-get_distinguished_name :
        (fuel : ℕ) (s t : S) (n : NamedLdapObject) {dn : String}
        → get_distinguished_name r fuel n s ≡ (ok dn, t)
        → (os : List LdapObject) × (d : LdapDirectory) × Chain s n os d × (dn ≡ dn_of os d)
    unfolding get_distinguished_name dn_of ◌>>=◌
    Chain-get_distinguished_name zero s t n h = ground arith
    Chain-get_distinguished_name (suc fuel) s t (directory d) h =
        ([], d, at_directory d, ground arith)
    Chain-get_distinguished_name (suc fuel) s t (ldap_object o) {dn} h =
        let (n, s', e, h') =
          >>=-eq-ok (above_of o) _ (sym (get_distinguished_name-suc fuel o s) ∙ h) in
        let above = IsAbove-above_of s s' o e in
        let same : s' ≡ s = ground (arith, above_of-same s o above, e) in
        let (dn', t', e', h'') = >>=-eq-ok (get_distinguished_name r fuel n) _ h' in
        let (os, d, c, spells) =
          Chain-get_distinguished_name fuel s t' n
            (subst (λ u. get_distinguished_name r fuel n u ≡ (ok dn', t')) same e') in
        (o ∷ os, d, up o above c, ground arith)

    -- Where lookups leave the world alone, and each object with a property has a parent that is an
    -- object with the property, `GetDistinguishedName` of such an object does not finish, whatever
    -- the fuel.
    pub get_distinguished_name-cycle :
        (P : LdapObject → Type 0) (s : S)
        → ((o : LdapObject) → P o → (p : LdapObject) × IsAbove s o (ldap_object p) × P p)
        → (fuel : ℕ) (o : LdapObject) → P o
        → get_distinguished_name r fuel (ldap_object o) s ≡ (unfinished, s)
    unfolding get_distinguished_name ◌>>=◌
    get_distinguished_name-cycle P s closed zero o h = refl
    get_distinguished_name-cycle P s closed (suc fuel) o h =
        let (p, above, h') = closed o h in
        get_distinguished_name-suc fuel o s
        ∙ >>=-ok (above_of o) _ (above_of-same s o above)
        ∙ >>=-unfinished (get_distinguished_name r fuel _) _
            (get_distinguished_name-cycle P s closed fuel p h')
