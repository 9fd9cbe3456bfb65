-- ===== src/Main/Typing.antt =====
-- The types of the controllers that cmd/ldap-operator/main.go gives to the manager: what each is called
-- for, what its mapper takes and gives, and what its client builder has.
use openldap_operator.Base.{String, ◌≡◌, ◌⊎◌, inl, inr, refl, some, List, [], ◌∷◌, ◌++◌}
use openldap_operator.Go.{pure, Result, ◌>>=◌}
use openldap_operator.Go.Calls.{IsUnanswered}
use openldap_operator.Main.Program.{program-starts}
use openldap_operator.Api.{
  LdapGroup, LdapOrganizationalUnit, LdapUser, LdapObject, NamedLdapObject, Object, named, secret,
  other, directory, ldap_object, Reader,
}
use openldap_operator.Api
use openldap_operator.Api.Scheme.{Known, object, scheme_builder}
use openldap_operator.Ldap.{Entry}
use openldap_operator.Ldap
use openldap_operator.Mapper.{map_to_entry}
use openldap_operator.Main.Process.{
  EntryMapper, LdapObjectReconciler, Reconciler, directories, groups, organizational_units, users,
  Runtime, Exit, or_exit, SchemeCalls,
}
use openldap_operator.Main.Parts.{Part, controller, healthz, readyz, parts, Logs, Quiet}
use openldap_operator.Main.{
  group_reconciler, organizational_unit_reconciler, user_reconciler, ldap_client_builder, program,
}

-- The mapper of one type is the part of the model's for the objects of this type.
abbrev pub Restricts :
    {W T E : Type 0} → EntryMapper W T E → (T → LdapObject) → (E → Entry) → Type 0
Restricts {W} {T} mapper as_object as_entry =
    (reader : Reader W) (dn : String) (o : T)
    → (do e ← mapper reader dn o; pure (as_entry e)) ≡ map_to_entry reader dn (as_object o)

abbrev pub Among : Known → List Known → Type 0
Among k [] = ⊥
Among k (x ∷ xs) = (k ≡ x) ⊎ Among k xs

-- The type of a value is registered by package v1alpha1.
abbrev pub IsRegistered : Known → List (List Known) → Type 0
IsRegistered k [] = ⊥
IsRegistered k (ks ∷ kss) = Among k ks ⊎ IsRegistered k kss

abbrev pub IsServed : Object → Type 0
IsServed (named n) = IsRegistered (object n) scheme_builder
IsServed (secret s) = ⊥
IsServed (other kind meta) = ⊥

-- The builder has the client and the scheme without which `Build` would panic.
abbrev pub IsEquipped :
    {W Client Scheme Recorder T E : Type 0}
    → LdapObjectReconciler W Client Scheme Recorder T E
    → Type 0
IsEquipped r =
    (r.ldap_client_builder.client ≡ some r.client) × (r.ldap_client_builder.scheme ≡ some r.scheme)

-- A reconciler that is called for the given object: the object is of the reconciler's type, and so
-- are what the mapper takes and the entries that it gives.
abbrev pub IsTyped :
    {W Client Scheme Recorder : Type 0} → Object → Reconciler W Client Scheme Recorder → Type 0
IsTyped o (directories r) = (d : Api.LdapDirectory) × (o ≡ named (directory d))
IsTyped o (groups r) =
    ((g : LdapGroup) × (o ≡ named (ldap_object (Api.LdapObject.group g))))
    × Restricts r.map_to_entry Api.LdapObject.group Ldap.Entry.group
    × IsEquipped r
IsTyped o (organizational_units r) =
    ((ou : LdapOrganizationalUnit) × (o
        ≡ named (ldap_object (Api.LdapObject.organizational_unit ou))))
    × Restricts r.map_to_entry Api.LdapObject.organizational_unit Ldap.Entry.organizational_unit
    × IsEquipped r
IsTyped o (users r) =
    ((u : LdapUser) × (o ≡ named (ldap_object (Api.LdapObject.user u))))
    × Restricts r.map_to_entry Api.LdapObject.user Ldap.Entry.user
    × IsEquipped r

abbrev pub AreTyped :
    {W Client Scheme Recorder : Type 0} → List (Part W Client Scheme Recorder) → Type 0
AreTyped [] = Unit
AreTyped (controller r ∷ ps) =
    IsServed r.for_object × IsTyped r.for_object r.reconciler × AreTyped ps
AreTyped (healthz name ∷ ps) = AreTyped ps
AreTyped (readyz name ∷ ps) = AreTyped ps

module _ {S W Level Config Manager Client Scheme Recorder Context : Type 0}
    (run : Runtime S W Level Config Manager Client Scheme Recorder Context) where
  parts-AreTyped : (mgr : Manager) → AreTyped (parts run mgr)
  unfolding map_to_entry group_reconciler organizational_unit_reconciler user_reconciler
      ldap_client_builder ◌>>=◌
  parts-AreTyped mgr = (
    inr (inr (inr (inl (inl refl)))),
    ((_, refl), (λ reader dn o. refl), (refl, refl)),
    (
      inr (inr (inl (inl refl))),
      ((_, refl), (λ reader dn o. refl), (refl, refl)),
      (
        inr (inl (inl refl)),
        ((_, refl), (λ reader dn o. refl), (refl, refl)),
        (inl (inl refl), (_, refl), tt),
      ),
    ),
  )

  -- The process where the manager is started: its log has grown by parts whose controllers are all
  -- typed, and the program ends as the start does.
  pub record StartsTyped (log : S → List (Part W Client Scheme Recorder)) (s : S)
      (outcome : Result Exit (Unit {0}) × S) : Type 0 where
    pub added : List (Part W Client Scheme Recorder)
    pub manager : Manager
    pub context : Context
    pub at : S
    pub logged : log at ≡ added ++ log s
    pub typed : AreTyped added
    pub ends : outcome ≡ or_exit "problem running manager" (run.start manager context) at

  -- Suppose that each call that gives the manager a controller or a check and succeeds is seen in a
  -- log, which the other calls before the start leave alone, and that no call before the start
  -- changes whether the manager runs. Then the program either ends without success and has not
  -- changed whether the manager runs, or it starts a manager where each controller that was added to
  -- the log is called for objects of its own type, which package v1alpha1 registers, and where each
  -- of those for groups, organizational units and users has a mapper that maps an object of this type
  -- as the model of `Reconcile` does, to an entry of the matching type, and a client builder that has
  -- a client and a scheme.
  pub program-StartsTyped :
      (calls : SchemeCalls Scheme) {V : Type 0} (running : S → V)
      (log : S → List (Part W Client Scheme Recorder))
      → Quiet run running
      → Logs run log
      → (others args : List String) (s : S)
      → StartsTyped log s (program run calls others args s)
        ⊎ (IsUnanswered (program run calls others args s).0
            × (running (program run calls others args s).1 ≡ running s))
  program-StartsTyped calls running log quiet logs others args s =
      elim (program-starts run calls running log quiet logs others args s) [
        | inl (_, _, started) ↦ inl (record {
          added = parts run started.manager;
          manager = started.manager;
          context = started.context;
          at = started.at;
          logged = started.logged;
          typed = parts-AreTyped started.manager;
          ends = started.ends;
        })
        | inr stopped ↦ inr stopped
      ]
