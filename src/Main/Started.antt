-- ===== src/Main/Started.antt =====
-- What cmd/ldap-operator/main.go has done by the time that it starts the manager.
use openldap_operator.Base.{
  String, ◌≡◌, refl, ◌∙◌, sym, ap, subst, ◌⊎◌, inl, inr, List, ◌∷◌, ◌++◌, arith,
}
use openldap_operator.Go.{Fault, Result, ok, err, panic, unfinished, M, pure, lift, ◌>>=◌, ◌>>◌}
use openldap_operator.Go.Calls.{
  Keeps, keeps_rules, Keeps-pure, Keeps-effect, Keeps-lift, IsUnanswered, >>=-cases, >>=-eq-ok,
}
use openldap_operator.Go.Ensures.{Ensures->>=, Ensures-pure}
use openldap_operator.Go.Changes.{Changes, Changes-of_Keeps, Changes->>=}
use openldap_operator.Go.Flags.{FlagError}
use openldap_operator.Main.Flags.{Options, parse_options}
use openldap_operator.Main.Process.{
  or_exit, Registration, Runtime, group_type, organizational_unit_type, user_type,
}
use openldap_operator.Main.{
  setup_directories, setup_objects, create_manager, add_controllers, add_checks, set_up,
  start_manager, parsed, main,
}
use openldap_operator.Main.Parts.{
  Part, controller, healthz, readyz, Logs, Quiet, parts, IsCreated, IsStarted,
}

exit-ok :
    {S A : Type 0} (text : String) (m : M S Fault A) {s t : S} {a : A}
    → or_exit text m s ≡ (ok a, t)
    → m s ≡ (ok a, t)
unfolding or_exit
exit-ok {S} {A} text m {s} {t} {a} h = go (m s) refl
  where
    go : (r : Result Fault A × S) → m s ≡ r → m s ≡ (ok a, t)
    go (ok b, u) e = ground arith
    go (err x, u) e = ground arith
    go (panic p, u) e = ground arith
    go (unfinished, u) e = ground arith

Keeps-or_exit {ℓ} :
    {S A : Type 0} {V : Type ℓ} {v : S → V} (text : String) (m : M S Fault A)
    → Keeps v m
    → Keeps v (or_exit text m)
unfolding or_exit
Keeps-or_exit text m h = record { same = h.same }

module _ {S W Level Config Manager Client Scheme Recorder Context : Type 0}
    (run : Runtime S W Level Config Manager Client Scheme Recorder Context) where
  module _ {V : Type 0} {running : S → V} (quiet : Quiet run running) where
    controllers-Keeps : (mgr : Manager) → Keeps running (add_controllers run mgr)
    unfolding add_controllers setup_directories setup_objects
    controllers-Keeps mgr = search (Keeps-or_exit, quiet.complete, keeps_rules) depth 10

    checks-Keeps : (mgr : Manager) → Keeps running (add_checks run mgr)
    unfolding add_checks
    checks-Keeps mgr = search (Keeps-or_exit, quiet.healthz_check, quiet.readyz_check, keeps_rules)

    manager-Keeps : (scheme : Scheme) (o : Options) → Keeps running (create_manager run scheme o)
    unfolding create_manager
    manager-Keeps scheme o = search (Keeps-or_exit, quiet.config, quiet.manager, keeps_rules)

    set_up-Keeps : (scheme : Scheme) (o : Options) → Keeps running (set_up run scheme o)
    unfolding set_up
    set_up-Keeps scheme o =
        search (manager-Keeps, controllers-Keeps, checks-Keeps, quiet.logger, keeps_rules) depth 10

  module _ {log : S → List (Part W Client Scheme Recorder)} (logs : Logs run log) where
    complete-Changes :
        (text : String) (mgr : Manager) (r : Registration W Client Scheme Recorder)
        → Changes log (λ l. controller r ∷ l) (or_exit text (run.complete mgr r))
    complete-Changes text mgr r = record {
      changed = λ s t a h. logs.complete mgr r s t (exit-ok text _ h);
    }

    healthz-Changes :
        (text : String) (mgr : Manager) (name : String)
        → Changes log (λ l. healthz name ∷ l) (or_exit text (run.add_healthz_check mgr name))
    healthz-Changes text mgr name = record {
      changed = λ s t a h. logs.healthz_check mgr name s t (exit-ok text _ h);
    }

    readyz-Changes :
        (text : String) (mgr : Manager) (name : String)
        → Changes log (λ l. readyz name ∷ l) (or_exit text (run.add_readyz_check mgr name))
    readyz-Changes text mgr name = record {
      changed = λ s t a h. logs.readyz_check mgr name s t (exit-ok text _ h);
    }

    added-Changes :
        (mgr : Manager)
        → Changes log
            (λ l. parts run mgr ++ l)
            (add_controllers run mgr >> (add_checks run mgr >> pure mgr))
    unfolding add_controllers add_checks setup_directories setup_objects group_type
        organizational_unit_type user_type
    added-Changes mgr =
        Changes->>= {g = λ l. readyz "readyz" ∷ healthz "healthz" ∷ l} _ _
          (Changes->>= _ _ (complete-Changes _ mgr _) λ _.
            Changes->>= _ _ (complete-Changes _ mgr _)
              λ _. Changes->>= _ _ (complete-Changes _ mgr _) λ _. complete-Changes _ mgr _)
          λ _.
            Changes->>= _ _ (Changes->>= _ _ (healthz-Changes _ mgr _) λ _. readyz-Changes _ mgr _)
              λ _. Changes-of_Keeps (Keeps-pure mgr)

    created-Keeps : (scheme : Scheme) (o : Options) → Keeps log (create_manager run scheme o)
    unfolding create_manager
    created-Keeps scheme o = search (Keeps-or_exit, logs.config, logs.manager, keeps_rules)

    added-same :
        (mgr mgr' : Manager) (s t : S)
        → (add_controllers run mgr >> (add_checks run mgr >> pure mgr)) s ≡ (ok mgr', t)
        → mgr ≡ mgr'
    added-same mgr mgr' s t h = sym (
        (Ensures->>= {Q = λ m _. m ≡ mgr} _ _
            λ _. Ensures->>= _ _ λ _. Ensures-pure mgr λ _. refl).after
          s t mgr' h)

    -- What a set-up that succeeds did: the manager was made by `NewManager`, and was given its parts.
    set_up-eq-ok :
        (scheme : Scheme) (o : Options) (s t : S) (mgr : Manager)
        → set_up run scheme o s ≡ (ok mgr, t)
        → IsCreated run scheme o mgr × (log t ≡ parts run mgr ++ log s)
    unfolding set_up create_manager
    set_up-eq-ok scheme o s t mgr h =
        let (level, s1, h1, k1) = >>=-eq-ok _ _ h in
        let (_, s2, h2, k2) = >>=-eq-ok _ _ k1 in
        let (mgr', s3, h3, k3) = >>=-eq-ok _ _ k2 in
        let (config, u0, _, h4) = >>=-eq-ok _ _ h3 in
        let same = added-same mgr' mgr s3 t k3 in
        (
          record {
            config = config;
            before = u0;
            after = s3;
            created =
                exit-ok "unable to start manager" (run.new_manager config _) h4
                ∙ ap (λ m. (ok m, s3)) same;
          },
          (added-Changes mgr').changed s3 t mgr k3
              ∙ ap (λ m. parts run m ++ log s3) same
              ∙ ap (λ l. parts run mgr ++ l)
                  ((Changes-of_Keeps (created-Keeps scheme o)).changed s2 s3 mgr' h3
                    ∙ (Changes-of_Keeps (Keeps-effect _ (logs.logger level))).changed s1 s2 tt h2
                    ∙ (Changes-of_Keeps {v = log} (Keeps-lift _)).changed s s1 level h1),
        )

  start_manager-at :
      (mgr : Manager) (s : S)
      → start_manager run mgr s
        ≡ or_exit "problem running manager"
            (run.start mgr (run.setup_signal_handler s).0)
            (run.setup_signal_handler s).1
  unfolding start_manager ◌>>=◌
  start_manager-at mgr s = refl

  parsed-eq-ok :
      (others args : List String) (o : Options)
      → parsed run others args ≡ ok o
      → parse_options others args ≡ ok o
  unfolding parsed
  parsed-eq-ok others args o h = go (parse_options others args) refl
    where
      go :
          (r : Result FlagError Options)
          → parse_options others args ≡ r
          → parse_options others args ≡ ok o
      go (ok o') e = ground arith
      go (err x) e = ground arith
      go (panic p) e = ground arith
      go unfinished e = ground arith

  -- `main` starts the manager or fails before.
  pub main-starts :
      {V : Type 0} (running : S → V) (log : S → List (Part W Client Scheme Recorder))
      → Quiet run running
      → Logs run log
      → (scheme : Scheme) (others args : List String) (s : S)
      → IsStarted run log scheme others args s (main run scheme others args s)
        ⊎ (IsUnanswered (main run scheme others args s).0
            × (running (main run scheme others args s).1 ≡ running s))
  unfolding main lift
  main-starts running log quiet logs scheme others args s =
      elim (>>=-cases (lift (parsed run others args))
        (λ o. set_up run scheme o >>= start_manager run) s) [
          | inr (_, fails, same) ↦ inr (fails, ap running same)
          | inl (o, s1, parses, goes) ↦
              elim (>>=-cases (set_up run scheme o) (start_manager run) s1) [
                | inr (_, fails, same) ↦ inr (
                  subst (λ r. IsUnanswered r.0) (sym goes) fails,
                  ap (λ r. running r.1) goes
                      ∙ ap running same
                      ∙ (set_up-Keeps quiet scheme o).same s1
                      ∙ ap (λ r. running r.1) (sym parses),
                )
                | inl (mgr, s2, done, starts) ↦
                    let (created, logged) = set_up-eq-ok logs scheme o s1 s2 mgr done in
                    inl (record {
                      options = o;
                      parses = parsed-eq-ok others args o (ap (λ r. r.0) parses);
                      manager = mgr;
                      created = created;
                      context = (run.setup_signal_handler s2).0;
                      at = (run.setup_signal_handler s2).1;
                      logged =
                          logs.signals s2
                          ∙ logged
                          ∙ ap (λ r. parts run mgr ++ log r.1) (sym parses);
                      ends = goes ∙ starts ∙ start_manager-at mgr s2;
                    })
              ]
        ]
