-- ===== src/Ldap/Upsert/Passwords.antt =====
-- Users without a password. The server's library refuses to bind with an empty password, by an
-- error that is not `LDAPResultInvalidCredentials`.
use openldap_operator.Base.{
  String, ◌≡◌, ◌≢◌, sym, ap, ◌∙◌, Bool, false, none, some, List, ◌∷◌, arith,
}
use openldap_operator.Go.{Fault, is_error_with_code, Result, ok, err}
use openldap_operator.Go.Calls.{>>=-eq-ok}
use openldap_operator.Ldap.{User}
use openldap_operator.Ldap.Goldap.{Conn, SearchEntry, Goldap, invalid_credentials}
use openldap_operator.Ldap.Client.{Client, connect}
use openldap_operator.Ldap.Client.Success.{with_connection-eq-ok}
use openldap_operator.Ldap.Upsert.{
  existing_entries, modify_if_changed, try_password, password_changed, check_password, upsert_user,
  create_or_update_user,
}
use openldap_operator.Ldap.Upsert.Created.{existing_entries-eq-ok}
use openldap_operator.Ldap.Upsert.Requests.{user_search, user_modify}

-- `Bind` does not allow an unauthenticated bind, one with an empty password.
abbrev pub RefusesEmptyPassword : {S : Type 0} → Goldap S → Type 0
RefusesEmptyPassword {S} g =
    (conn : Conn) (dn : String) (s : S)
    → (f : Fault) × ((g.bind conn dn "" s).0 ≡ err f)
      × (is_error_with_code f invalid_credentials ≡ false)

refused-error :
    (r : Result Fault (Unit {0})) {f : Fault} {b : Bool}
    → r ≡ err f
    → is_error_with_code f invalid_credentials ≡ false
    → password_changed r ≢ ok b
unfolding password_changed
refused-error r e code h = ground arith

module _ {S : Type 0} (g : Goldap S) (refuses : RefusesEmptyPassword g) (c : Client) (u : User)
    (empty : u.password ≡ "") where
  try_password-empty : (conn : Conn) (s t : S) {b : Bool} → try_password g conn u s ≢ (ok b, t)
  unfolding try_password
  try_password-empty conn s t h =
      let (f, e, code) = refuses conn u.distinguished_name s in
      refused-error (g.bind conn u.distinguished_name u.password s).0
        (ap (λ p. (g.bind conn u.distinguished_name p s).0) empty ∙ e) code (ap (λ r. r.0) h)

  check_password-empty : (conn : Conn) (s t : S) → check_password g c conn u s ≢ (ok tt, t)
  unfolding check_password
  check_password-empty conn s t h =
      let (conn_user, s1, s2, _, h', _) = with_connection-eq-ok g _ c _ s h in
      let (b, s3, e, _) = >>=-eq-ok (try_password g conn_user u) _ h' in
      try_password-empty conn_user s1 s3 e

  upsert_user-empty :
      (conn : Conn) (e : SearchEntry) (es : List SearchEntry) (s t : S) {b : Bool}
      → upsert_user g c conn u (e ∷ es) s ≢ (ok b, t)
  unfolding upsert_user
  upsert_user-empty conn e es s t h =
      let (_, s1, _, h') = >>=-eq-ok (modify_if_changed g conn _ (user_modify u e)) _ h in
      let (_, s2, e', _) = >>=-eq-ok (check_password g c conn u) _ h' in
      check_password-empty conn s1 s2 e'

  -- If binds with an empty password are refused by an error other than invalid credentials, then
  -- `CreateOrUpdateEntry` of a user without a password, whose entry the search finds without an
  -- error, does not succeed, whatever else the server answers.
  pub create_or_update_user-empty :
      (s t conn_s : S) (conn : Conn) (e : SearchEntry) (es : List SearchEntry) {b : Bool}
      → connect g c s ≡ (ok conn, conn_s)
      → (g.search conn (user_search u) conn_s).0 ≡ record { entries = some (e ∷ es); error = none }
      → create_or_update_user g c u s ≢ (ok b, t)
  unfolding create_or_update_user
  create_or_update_user-empty s t conn_s conn e es reached found h =
      let (conn', s1, s2, reached', h', _) = with_connection-eq-ok g _ c _ s h in
      let (es', s3, e', h'') = >>=-eq-ok (existing_entries g conn' _ (user_search u)) _ h' in
      let reply = existing_entries-eq-ok g conn' _ (user_search u) s1 e' in
      let same : es' ≡ e ∷ es = cc (reply, ap (λ r. r.entries) found, sym reached' ∙ reached) in
      upsert_user-empty conn' e es s3 s2 (ap (λ l. upsert_user g c conn' u l s3) (sym same) ∙ h'')
