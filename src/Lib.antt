-- ===== src/Lib.antt =====
-- The LDAP operator: a Kubernetes operator that keeps the entries of OpenLDAP directories in step with
-- objects of a cluster. A model of its core, with theorems about it.
--
-- The program's parts. A reconciler (internal/controller) is called with the name of a changed
-- object. The one for groups, organizational units and users checks that what the object refers to
-- exists and is ready, asks a builder (internal/ldap/client_builder.go) for the client of the
-- object's directory, computes the object's distinguished name (api/v1alpha1), and then deletes the
-- object's entry, or maps the object to an entry (internal/mapper) and lets the client
-- (internal/ldap/client.go) create or update it. It reports by the object's status and by events. The
-- reconciler of directories makes the admin password that the client reads, and the stateful set and
-- the service by which the directory's server runs and is found.
--
-- The files.
--   Base, Go          names and lemmas that the others share; Go's errors, panics, `defer` and calls
--                     with an outside world as functions S → Result E A × S. Go.Strings, Go.Ints
--                     and Go.Flags are what is used of packages strings, strconv and flag; Go.Calls,
--                     Go.Preserves, Go.Leads, Go.Changes, Go.Ensures and Go.Fails are rules for
--                     sequences of calls.
--   Api               api/ldap_object.go and api/v1alpha1/*_types.go: the objects. Api.Naming is
--                     GetDistinguishedName, Api.References is ResolveReferences, Api.Zero the empty
--                     objects, and Api.Scheme what the package registers with a scheme.
--   Ldap              internal/ldap: types.go is Ldap; client.go is Ldap.Client (the connection and
--                     the reads), Ldap.Upsert (CreateOrUpdateEntry; its requests in
--                     Ldap.Upsert.Requests) and Ldap.Delete (DeleteEntry); client_builder.go is
--                     Ldap.Builder; the interfaces of both are Ldap.Interface; fake_client.go is
--                     Ldap.Fake.
--   Mapper            internal/mapper/mapper.go, as one mapper for the three types of objects.
--   Controller        internal/controller/ldapobject_controller.go: Controller.Marks has the status
--                     marks, Controller.Objects has Reconcile, a function for each stage.
--   Controller.Directories
--                     internal/controller/ldapdirectory_controller.go: the stages of Reconcile;
--                     the marks are in Marks, statefulSetTemplate and serviceTemplate in
--                     Templates, and the Kubernetes types that they fill in Resources.
--   Main              cmd/ldap-operator/main.go, with SetupWithManager of both reconcilers: Main.Flags
--                     has the flags, Main.Process the reconcilers and what is used of the process.
--   Tests             small servers and clusters, on which the theorems are applied.
-- The other modules hold lemmas and theorems.
--
-- Parameters. The calls of go-ldap (record Goldap), of the Kubernetes client, controllerutil, the
-- status updater and the event recorder (records Kube and DirectoryKube), of the references of
-- operator-utils (record Reader) and of the certificate pool and the cluster's domain (record
-- BuildCalls) act on a world that the model does not look into; so do those of zap and of
-- controller-runtime by which the program starts (record Runtime), and testify's mock (record Mock).
-- What a theorem needs of them is among its hypotheses. Sets of strings are compared by a given
-- function. The flags that linked packages define are given by their names, as text flags.
--
-- Fuel. GetDistinguishedName and a cascading DeleteEntry recurse through what the cluster and the
-- server answer, so they take fuel and end as `unfinished` without it: one unit for each object on
-- the way up, and one for each level of the tree below an entry. The theorems say how much is enough.
-- The digits of a number take fuel too, and are given more than the number.
--
-- Not modelled: log lines, the usage text of the flags, and the generated deep copies
-- (values of the model are immutable, so that a copy is the value itself). A `nil` interface among
-- the references is `none`. Of the Kubernetes types only the fields that the code reads or fills are
-- kept: a volume claim template is its name, access modes and storage.
-- GetEntry and CreateOrUpdateEntry end with an error for an entry that is none of the three types;
-- the type parameter of the client lets no other in, and neither does the model's type of entries, so
-- that branch is left out.
pub mod Base
pub mod Go
pub mod Api
pub mod Ldap
pub mod Mapper
pub mod Controller
pub mod Main
mod Tests
