-- ===== src/Ldap/Client/Faults.antt =====
-- An end that the client of internal/ldap/client.go does not provide for: a refused bind.
use openldap_operator.Base.{◌∷◌, List, sym, ◌∙◌, ◌≡◌, ap}
use openldap_operator.Go.{Fault, fault, wrapf, ok, err, ◌>>=◌}
use openldap_operator.Ldap.Goldap.{Conn, Goldap}
use openldap_operator.Ldap.Client.{Client, connect}
use openldap_operator.Ldap.Client.Connections.{ShowsOpened, left_open}

module _ {S : Type 0} (g : Goldap S) where
  -- Where a view shows the connections that are open, and the directory is dialled and then refuses
  -- the administrator, `connect` returns the error, and the connection is open, besides those that
  -- were open before: nothing closes it.
  pub connect-refused :
      (opened : S → List Conn)
      → ShowsOpened g opened
      → (c : Client) (s : S) {conn : Conn} {t u : S} {f : Fault}
      → g.dial_url c.directory_address c.ca_bundle s ≡ (ok conn, t)
      → g.bind conn c.admin_username c.admin_password (g.set_timeout conn 5 t) ≡ (err f, u)
      → (connect g c s ≡ (err (wrapf "failed to bind to ldap directory" (fault f)), u))
        × (opened u ≡ conn ∷ opened s)
  unfolding connect ◌>>=◌
  connect-refused opened shows c s {conn} {t} {u} {f} dialled refused = (
    rw (dialled, connect) (rw refused),
    ap (λ r. opened r.1) (sym refused) ∙ left_open g opened shows c s dialled,
  )
