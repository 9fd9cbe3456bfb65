-- ===== src/Tests/Delivered.antt =====
-- The object reconciler, with the client that the builder makes, on a server that holds no entry yet.
use openldap_operator.Base.{false, none}
use openldap_operator.Api.{unset, ready}
use openldap_operator.Ldap.Upsert
use openldap_operator.Ldap.Interface.{build_client}
use openldap_operator.Controller.Objects.{reconcile}
use openldap_operator.Tests.Stored.{World, server}
use openldap_operator.Tests.Found.{calls, builder}
use openldap_operator.Tests.Objects.{cluster, request}

-- No entry is there, and the object has no phase yet.
abbrev before : World
before = ((λ n. none), unset)

abbrev after : World
after =
    (reconcile (cluster ready) (build_client server calls (λ a b. false) 8 builder) 8 request
      before).1
