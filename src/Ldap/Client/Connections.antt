-- ===== src/Ldap/Client/Connections.antt =====
-- The connections that are open, before and after the calls of the client that read.
use openldap_operator.Base.{
  ℕ, nat_eq, List, [], ◌∷◌, if◌then◌else◌, String, ◌≡◌, ◌≢◌, refl, ap, ◌∙◌, sym, arith,
}
use openldap_operator.Go.{
  Fault, Error, Result, ok, err, panic, unfinished, M, finally, on_err, ◌>>=◌,
}
use openldap_operator.Go.Calls.{>>=-ok, on_err-ok, Keeps, keeps_rules, Keeps-ask}
use openldap_operator.Ldap.Goldap.{
  Conn, CertPool, SearchRequest, AddRequest, ModifyRequest, PasswordModifyRequest, Goldap,
}
use openldap_operator.Ldap.{Entry, organizational_unit, group, user}
use openldap_operator.Ldap.Client.{
  Client, connect, with_connection_or, search_reply, ping, read_first, get_entry,
}

-- The connections without one of them, where that is among them.
abbrev pub remove_conn : Conn → List Conn → List Conn
remove_conn conn [] = []
remove_conn conn (c ∷ cs) = let rest = remove_conn conn cs in if nat_eq c conn then cs else c ∷ rest

-- The connections that are open in a world, the latest first: dialling opens one, closing one closes
-- just that one, and nothing else changes them.
pub record ShowsOpened {S : Type 0} (g : Goldap S) (opened : S → List Conn) : Type 0 where
  pub dialled :
      (a : String) (p : CertPool) (s : S) {conn : Conn}
      → (g.dial_url a p s).0 ≡ ok conn
      → opened (g.dial_url a p s).1 ≡ conn ∷ opened s
  pub not_dialled :
      (a : String) (p : CertPool) (s : S)
      → ((conn : Conn) → (g.dial_url a p s).0 ≢ ok conn)
      → opened (g.dial_url a p s).1 ≡ opened s
  pub closed : (conn : Conn) (s : S) → opened (g.close conn s) ≡ remove_conn conn (opened s)
  pub set_timeout_same : (conn : Conn) (n : ℕ) (s : S) → opened (g.set_timeout conn n s) ≡ opened s
  pub bind_same : (conn : Conn) (u p : String) → Keeps opened (g.bind conn u p)
  pub search_same :
      (conn : Conn) (q : SearchRequest) (s : S) → opened (g.search conn q s).1 ≡ opened s
  pub add_same : (conn : Conn) (q : AddRequest) → Keeps opened (g.add conn q)
  pub modify_same : (conn : Conn) (q : ModifyRequest) → Keeps opened (g.modify conn q)
  pub del_same : (conn : Conn) (dn : String) → Keeps opened (g.del conn dn)
  pub password_modify_same :
      (conn : Conn) (q : PasswordModifyRequest) → Keeps opened (g.password_modify conn q)

remove_conn-head : (conn : Conn) (cs : List Conn) → remove_conn conn (conn ∷ cs) ≡ cs
remove_conn-head conn cs = ground arith

-- The directory lets the client's administrator in.
abbrev pub Admits : {S : Type 0} → Goldap S → Client → Type 0
Admits {S} g c = (conn : Conn) (s : S) → (g.bind conn c.admin_username c.admin_password s).0 ≡ ok tt

module _ {S : Type 0} (g : Goldap S) (opened : S → List Conn) (shows : ShowsOpened g opened)
    (c : Client) where
  connect-dialled :
      (s : S) {conn : Conn} {t : S}
      → Admits g c
      → g.dial_url c.directory_address c.ca_bundle s ≡ (ok conn, t)
      → connect g c s
        ≡ (ok conn, (g.bind conn c.admin_username c.admin_password (g.set_timeout conn 5 t)).1)
  unfolding connect ◌>>=◌
  connect-dialled s {conn} {t} admits e =
      rw (e, connect) (rw (admits conn (g.set_timeout conn 5 t)))

  not_dialled-same :
      (s : S) {r : Result Fault Conn} {t : S}
      → g.dial_url c.directory_address c.ca_bundle s ≡ (r, t)
      → ((conn : Conn) → r ≢ ok conn)
      → opened t ≡ opened s
  not_dialled-same s {r} e h =
      ap (λ x. opened x.1) (sym e)
      ∙ shows.not_dialled c.directory_address c.ca_bundle s
          (λ conn p. h conn (sym (ap (λ x. x.0) e) ∙ p))

  -- After a connection was dialled, it is open.
  pub left_open :
      (s : S) {conn : Conn} {t : S}
      → g.dial_url c.directory_address c.ca_bundle s ≡ (ok conn, t)
      → opened (g.bind conn c.admin_username c.admin_password (g.set_timeout conn 5 t)).1
        ≡ conn ∷ opened s
  left_open s {conn} {t} e =
      (shows.bind_same conn c.admin_username c.admin_password).same (g.set_timeout conn 5 t)
      ∙ (shows.set_timeout_same conn 5 t
          ∙ (ap (λ x. opened x.1) (sym e)
              ∙ shows.dialled c.directory_address c.ca_bundle s (ap (λ x. x.0) e)))

  -- A body that closes what it opens does so over a connection of its own, too.
  pub with_connection-Keeps :
      Admits g c
      → {A : Type 0} (f : Error → Error) (body : Conn → M S Error A)
      → ((conn : Conn) → Keeps opened (body conn))
      → Keeps opened (with_connection_or g f c body)
  unfolding with_connection_or ◌>>=◌
  with_connection-Keeps admits {A} f body h = record {
    same = λ s. go s (g.dial_url c.directory_address c.ca_bundle s) refl;
  }
    where
      go :
          (s : S) (r : Result Fault Conn × S)
          → g.dial_url c.directory_address c.ca_bundle s ≡ r
          → opened (with_connection_or g f c body s).1 ≡ opened s
      go s (ok conn, t) e =
          let s1 = g.set_timeout conn 5 t in
          let s2 = (g.bind conn c.admin_username c.admin_password s1).1 in
          ap (λ x. opened x.1)
            (>>=-ok (on_err f (connect g c)) (λ n. finally (body n) (g.close n))
              (on_err-ok f (connect g c) (connect-dialled s admits e)))
          ∙ (shows.closed conn (body conn s2).1
              ∙ (ap (remove_conn conn) ((h conn).same s2 ∙ left_open s e)
                  ∙ remove_conn-head conn _))
      go s (err x, t) e = rw (e, with_connection_or, connect) (not_dialled-same s e (λ conn p. cc))
      go s (panic m, t) e =
          rw (e, with_connection_or, connect) (not_dialled-same s e (λ conn p. cc))
      go s (unfinished, t) e =
          rw (e, with_connection_or, connect) (not_dialled-same s e (λ conn p. cc))

  module _ (admits : Admits g c) where
    pub search_reply-Keeps :
        (conn : Conn) (q : SearchRequest) → Keeps opened (search_reply g conn q)
    unfolding search_reply
    search_reply-Keeps conn q = Keeps-ask (g.search conn q) (shows.search_same conn q)

    pub ping-Keeps : Keeps opened (ping g c)
    unfolding ping
    ping-Keeps = search (keeps_rules, search_reply-Keeps, with_connection-Keeps admits)

    read_first-Keeps : (text : String) (q : SearchRequest) → Keeps opened (read_first g c text q)
    unfolding read_first
    read_first-Keeps text q =
        search (keeps_rules, search_reply-Keeps, with_connection-Keeps admits) depth 8

    -- In a directory that lets the administrator in, `GetEntry` leaves open the very connections that
    -- were open before, however it ends.
    pub get_entry-Keeps : (dn : String) (e : Entry) → Keeps opened (get_entry g c dn e)
    unfolding get_entry
    get_entry-Keeps dn (organizational_unit _) = search (keeps_rules, read_first-Keeps)
    get_entry-Keeps dn (group _) = search (keeps_rules, read_first-Keeps)
    get_entry-Keeps dn (user _) = search (keeps_rules, read_first-Keeps)
