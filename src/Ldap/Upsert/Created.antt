-- ===== src/Ldap/Upsert/Created.antt =====
-- The flag that `CreateOrUpdateEntry` returns, and what its search found.
use openldap_operator.Base.{String, ◌≡◌, Bool, true, false, some, List, [], ◌∷◌, arith}
use openldap_operator.Go.{Error, ok, M, ◌>>=◌, call_or, pure}
use openldap_operator.Go.Calls.{>>=-eq-ok}
use openldap_operator.Ldap.{
  User, Group, OrganizationalUnit, Entry, organizational_unit, group, user,
}
use openldap_operator.Ldap.Goldap.{Conn, SearchRequest, SearchEntry, Goldap}
use openldap_operator.Ldap.Client.{Client, connect, with_connection_or}
use openldap_operator.Ldap.Client.Success.{with_connection-eq-ok}
use openldap_operator.Ldap.Upsert.{
  existing_entries, upsert_organizational_unit, upsert_group, create_user, upsert_user,
  create_or_update_entry, modify_if_changed, check_password,
}
use openldap_operator.Ldap.Upsert.Requests.{
  organizational_unit_search, group_search, user_search, user_add, user_modify,
}

-- The search for an entry.
unfoldable pub entry_search : Entry → SearchRequest
entry_search (organizational_unit ou) = organizational_unit_search ou
entry_search (group gr) = group_search gr
entry_search (user u) = user_search u

abbrev pub is_empty : List SearchEntry → Bool
is_empty [] = true
is_empty (e ∷ es) = false

module _ {S : Type 0} (g : Goldap S) where
  -- The entries that are found are those of the server's reply.
  pub existing_entries-eq-ok :
      (conn : Conn) (text : String) (q : SearchRequest) (s : S) {es : List SearchEntry} {t : S}
      → existing_entries g conn text q s ≡ (ok es, t)
      → (g.search conn q s).0.entries ≡ some es
  unfolding existing_entries ◌>>=◌
  existing_entries-eq-ok conn text q s h = ground arith

  created-pure :
      {E A : Type 0} (m : M S E A) (b : Bool) {b' : Bool} (s : S) {t : S}
      → (m >>= λ _. pure b) s ≡ (ok b', t)
      → b' ≡ b
  unfolding pure
  created-pure m b s h = let (a, s', e, h') = >>=-eq-ok m _ h in ground arith

  upsert_organizational_unit-created :
      (conn : Conn) (ou : OrganizationalUnit) (es : List SearchEntry) (s : S) {b : Bool} {t : S}
      → upsert_organizational_unit g conn ou es s ≡ (ok b, t)
      → b ≡ is_empty es
  unfolding upsert_organizational_unit
  upsert_organizational_unit-created conn ou [] s h = created-pure _ true s h
  upsert_organizational_unit-created conn ou (e ∷ es) s h = created-pure _ false s h

  upsert_group-created :
      (set_equal : List String → List String → Bool) (conn : Conn) (gr : Group)
      (es : List SearchEntry) (s : S) {b : Bool} {t : S}
      → upsert_group g set_equal conn gr es s ≡ (ok b, t)
      → b ≡ is_empty es
  unfolding upsert_group
  upsert_group-created set_equal conn gr [] s h = created-pure _ true s h
  upsert_group-created set_equal conn gr (e ∷ es) s h = created-pure _ false s h

  upsert_user-created :
      (c : Client) (conn : Conn) (u : User) (es : List SearchEntry) (s : S) {b : Bool} {t : S}
      → upsert_user g c conn u es s ≡ (ok b, t)
      → b ≡ is_empty es
  unfolding upsert_user create_user
  upsert_user-created c conn u [] s h =
      let (_, s1, _, h') = >>=-eq-ok (call_or _ (g.add conn (user_add u))) _ h in
      created-pure _ true s1 h'
  upsert_user-created c conn u (e ∷ es) s h =
      let (_, s1, _, h') = >>=-eq-ok (modify_if_changed g conn _ (user_modify u e)) _ h in
      created-pure (check_password g c conn u) false s1 h'

  -- A search over a connection, and what is made of the entries.
  search-created :
      (c : Client) (text : String) (q : SearchRequest)
      (upsert : Conn → List SearchEntry → M S Error Bool)
      → ((conn : Conn) (es : List SearchEntry) (s t : S) (b : Bool)
          → upsert conn es s ≡ (ok b, t)
          → b ≡ is_empty es)
      → (s t : S) {created : Bool}
      → with_connection_or g
          (λ e. e)
          c
          (λ conn. do entries ← existing_entries g conn text q; upsert conn entries)
          s
        ≡ (ok created, t)
      → (conn : Conn) × (s' : S) × (es : List SearchEntry) × (connect g c s ≡ (ok conn, s'))
        × ((g.search conn q s').0.entries ≡ some es)
        × (created ≡ is_empty es)
  search-created c text q upsert says s t {created} h =
      let (conn, s1, s2, reached, h', _) = with_connection-eq-ok g _ c _ s h in
      let (es, s3, found, h'') = >>=-eq-ok (existing_entries g conn text q) _ h' in
      (
        conn,
        s1,
        es,
        reached,
        existing_entries-eq-ok conn text q s1 found,
        says conn es s3 s2 created h'',
      )

  module _ (set_equal : List String → List String → Bool) (c : Client) where
    -- A call that succeeds says that it created the entry exactly if the search for it, over the
    -- connection that the call made, had no entry in its reply.
    pub create_or_update_entry-created :
        (e : Entry) (s t : S) {created : Bool}
        → create_or_update_entry g set_equal c e s ≡ (ok created, t)
        → (conn : Conn) × (s' : S) × (es : List SearchEntry) × (connect g c s ≡ (ok conn, s'))
          × ((g.search conn (entry_search e) s').0.entries ≡ some es)
          × (created ≡ is_empty es)
    unfolding create_or_update_entry entry_search
    create_or_update_entry-created (organizational_unit ou) s t h =
        search-created c _ (organizational_unit_search ou)
          (λ conn. upsert_organizational_unit g conn ou)
          (λ conn es s' t' b. upsert_organizational_unit-created conn ou es s') s t h
    create_or_update_entry-created (group gr) s t h =
        search-created c _ (group_search gr) (λ conn. upsert_group g set_equal conn gr)
          (λ conn es s' t' b. upsert_group-created set_equal conn gr es s') s t h
    create_or_update_entry-created (user u) s t h =
        search-created c _ (user_search u) (λ conn. upsert_user g c conn u)
          (λ conn es s' t' b. upsert_user-created c conn u es s') s t h
