-- ===== src/Controller/Objects/Found.antt =====
-- The object reconciler (internal/controller/ldapobject_controller.go) with the client that
-- internal/ldap/client_builder.go makes, where the entries are there already.
use openldap_operator.Base.{ℕ, String, ◌≡◌, ◌∙◌, ap, subst, Bool, true, false, some, List}
use openldap_operator.Go.{ok}
use openldap_operator.Go.Preserves.{Preserves}
use openldap_operator.Api.{Phase, pending, ready, failed, LdapObject}
use openldap_operator.Ldap.{Entry}
use openldap_operator.Ldap.Goldap.{Conn, SearchEntry, Goldap}
use openldap_operator.Ldap.Client.{Client}
use openldap_operator.Ldap.Builder.{ClientBuilder, BuildCalls}
use openldap_operator.Ldap.Interface.{client_impl, build_client}
use openldap_operator.Ldap.Builder.Preserving.{BuildPreserves, build_client-P, build_client-eq-ok}
use openldap_operator.Ldap.Preserving.{GoldapPreserves, create_or_update_entry-P, delete_entry-P}
use openldap_operator.Ldap.Upsert.{create_or_update_entry}
use openldap_operator.Ldap.Upsert.Created.{entry_search, is_empty, create_or_update_entry-created}
use openldap_operator.Controller.{NamespacedName, Kube}
use openldap_operator.Controller.Marks.{write_status}
use openldap_operator.Controller.Objects.{reconcile}
use openldap_operator.Controller.Objects.Lookups.{KubePreserves}
use openldap_operator.Controller.Objects.Unready.{FindsEntries, reconcile-unready}

module _ {S C Scheme : Type 0} (g : Goldap S) (calls : BuildCalls S C Scheme)
    (set_equal : List String → List String → Bool) (levels : ℕ) (b : ClientBuilder C Scheme)
    (found : (e : Entry) (conn : Conn) (s : S) (es : List SearchEntry)
      → (g.search conn (entry_search e) s).0.entries ≡ some es
      → is_empty es ≡ false) where
  never_created :
      (c : Client) (e : Entry) (t : S) → ¬ ((create_or_update_entry g set_equal c e t).0 ≡ ok true)
  never_created c e t h =
      let (conn, s, es, reached, reply, flag) =
        create_or_update_entry-created g set_equal c e t _
          (ap (λ r. (r, (create_or_update_entry g set_equal c e t).1)) h) in
      true≢false (flag ∙ found e conn s es reply)
    where
      true≢false : ¬ (true ≡ false)
      true≢false e = cc

  build_client-FindsEntries :
      (P : S → Type 0)
      → GoldapPreserves g P
      → BuildPreserves calls P
      → FindsEntries (build_client g calls set_equal levels b) P
  unfolding client_impl
  build_client-FindsEntries P goldap builder = record {
    builds = build_client-P calls P builder g set_equal levels b;
    writes = λ d s c e h.
        let (c0, same) = build_client-eq-ok g calls set_equal levels b d s c h in
        subst (λ x. Preserves P (x.create_or_update_entry e)) same
          (create_or_update_entry-P g P goldap set_equal c0 e);
    deletes = λ d s c dn h.
        let (c0, same) = build_client-eq-ok g calls set_equal levels b d s c h in
        subst (λ x. Preserves P (x.delete_entry dn true)) same
          (delete_entry-P g P goldap levels c0 dn true);
    finds = λ d s t c e h.
        let (c0, same) = build_client-eq-ok g calls set_equal levels b d s c h in
        subst (λ x. ¬ ((x.create_or_update_entry e t).0 ≡ ok true)) same (never_created c0 e t);
  }

  -- Suppose that no call on the cluster or on the LDAP server makes the stored phase of an object
  -- ready, but for the write of that phase, and that each search by which CreateOrUpdateEntry looks
  -- for an entry finds one, if it replies. Then `Reconcile`, with the client that `Build` makes,
  -- leaves an object that is not ready not ready, for every request.
  pub reconcile-unready_found :
      (k : Kube S) (fuel : ℕ) (phase : S → Phase)
      → KubePreserves k (λ s. ¬ (phase s ≡ ready))
      → ((o : LdapObject) → Preserves (λ s. ¬ (phase s ≡ ready)) (write_status k o pending ""))
      → ((o : LdapObject) (text : String)
          → Preserves (λ s. ¬ (phase s ≡ ready)) (write_status k o failed text))
      → GoldapPreserves g (λ s. ¬ (phase s ≡ ready))
      → BuildPreserves calls (λ s. ¬ (phase s ≡ ready))
      → (req : NamespacedName) (s : S) → ¬ (phase s ≡ ready)
      → ¬ (phase (reconcile k (build_client g calls set_equal levels b) fuel req s).1 ≡ ready)
  reconcile-unready_found k fuel phase kube marks_pending marks_failed goldap builder =
      reconcile-unready k (build_client g calls set_equal levels b) fuel phase kube marks_pending
        marks_failed (build_client-FindsEntries (λ s. ¬ (phase s ≡ ready)) goldap builder)
