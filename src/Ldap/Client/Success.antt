-- ===== src/Ldap/Client/Success.antt =====
-- What a successful call over a connection went through.
use openldap_operator.Base.{◌≡◌, arith}
use openldap_operator.Go.{Error, ok, M, finally, on_err}
use openldap_operator.Go.Calls.{>>=-eq-ok, on_err-eq-ok}
use openldap_operator.Ldap.Goldap.{Conn, Goldap}
use openldap_operator.Ldap.Client.{Client, connect, with_connection_or}

module _ {S : Type 0} (g : Goldap S) where
  pub with_connection-eq-ok :
      {A : Type 0} (f : Error → Error) (c : Client) (body : Conn → M S Error A) (s : S) {a : A}
      {u : S}
      → with_connection_or g f c body s ≡ (ok a, u)
      → (conn : Conn) × (t : S) × (t' : S) × (connect g c s ≡ (ok conn, t))
        × (body conn t ≡ (ok a, t'))
        × (u ≡ g.close conn t')
  unfolding with_connection_or finally
  with_connection-eq-ok f c body s h =
      let (conn, t, e, h') = >>=-eq-ok (on_err f (connect g c)) _ h in
      (conn, t, (body conn t).1, on_err-eq-ok f (connect g c) e, ground arith, ground arith)
