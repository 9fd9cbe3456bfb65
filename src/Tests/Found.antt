-- ===== src/Tests/Found.antt =====
-- The object reconciler, with the client that the builder makes, on a server that holds every entry.
use openldap_operator.Base.{◌≢◌, sym, ap, Option, List, Bool, true, false, none, some, [], ◌∷◌}
use openldap_operator.Go.{ok}
use openldap_operator.Api.{unset, pending, ready, failed, secret}
use openldap_operator.Ldap.Goldap.{SearchEntry, Goldap}
use openldap_operator.Ldap.Builder.{BuildCalls, ClientBuilder}
use openldap_operator.Ldap.Builder.Preserving.{BuildPreserves}
use openldap_operator.Ldap.Interface.{build_client}
use openldap_operator.Ldap.Preserving.{GoldapPreserves}
use openldap_operator.Ldap.Upsert.Created.{is_empty}
use openldap_operator.Controller.Objects.{reconcile}
use openldap_operator.Controller.Objects.Found.{reconcile-unready_found}
use openldap_operator.Tests.Samples.{meta}
use openldap_operator.Tests.Objects.{
  World, cluster, cluster-preserves, request, mark-not_ready, pending≢ready, failed≢ready,
  unset≢ready,
}

abbrev holds_all : Goldap World
holds_all = record {
  dial_url = λ url pool s. (ok 0, s);
  set_timeout = λ conn n s. s;
  bind = λ conn name password s. (ok tt, s);
  search = λ conn q s. (
    record {
      entries = some (
          record {
            dn = q.base_dn;
            get_attribute_value = λ name. "";
            get_attribute_values = λ name. [];
          }
          ∷ []);
      error = none;
    },
    s,
  );
  add = λ conn q s. (ok tt, s);
  modify = λ conn q s. (ok tt, s);
  del = λ conn dn s. (ok tt, s);
  password_modify = λ conn q s. (ok tt, s);
  close = λ conn s. s;
}

abbrev pub calls : {S : Type 0} → BuildCalls S (Unit {0}) (Unit {0})
calls = record {
  get_secret = λ c namespace name s.
      (ok (record { meta = meta name; contents = ("password", "admin") ∷ [] }), s);
  resolve_secret = λ c scheme ref o s. (
    record {
      object = some (secret (record { meta = meta "certificate"; contents = [] }));
      found = true;
      error = none;
    },
    s,
  );
  append_certs_from_pem = λ pem. true;
  cluster_domain = "cluster.local";
}

abbrev pub builder : ClientBuilder (Unit {0}) (Unit {0})
builder = record { client = some tt; scheme = some tt; directory = none }

holds_all-preserves : (P : World → Type 0) → GoldapPreserves holds_all P
holds_all-preserves P = record {
  dial_url = λ url pool. record { at = λ s h. h };
  set_timeout = λ conn n s h. h;
  bind = λ conn name password. record { at = λ s h. h };
  search = λ conn q s h. h;
  add = λ conn q. record { at = λ s h. h };
  modify = λ conn q. record { at = λ s h. h };
  del = λ conn dn. record { at = λ s h. h };
  password_modify = λ conn q. record { at = λ s h. h };
  close = λ conn s h. h;
}

pub calls-preserve : {S : Type 0} (P : S → Type 0) → BuildPreserves calls P
calls-preserve P = record {
  get_secret = λ c namespace name. record { at = λ s h. h };
  resolve_secret = λ c scheme ref o s h. h;
}

abbrev no_entry : Option (List SearchEntry) → Bool
no_entry none = false
no_entry (some es) = is_empty es

reconcile-unready_found_example :
    (reconcile
      (cluster ready)
      (build_client holds_all calls (λ a b. true) 8 builder)
      8
      request
      (3, unset)).1.1
    ≢ ready
reconcile-unready_found_example =
    reconcile-unready_found holds_all calls (λ a b. true) 8 builder
      (λ e conn s es h. sym (ap no_entry h)) (cluster ready) 8 (λ s. s.1)
      (cluster-preserves ready (λ s. s.1 ≢ ready)) (λ o. mark-not_ready o pending "" pending≢ready)
      (λ o text. mark-not_ready o failed text failed≢ready) (holds_all-preserves (λ s. s.1 ≢ ready))
      (calls-preserve (λ s. s.1 ≢ ready)) request (3, unset) unset≢ready
