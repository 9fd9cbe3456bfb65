-- ===== src/Main/Program.antt =====
-- The whole program of cmd/ldap-operator/main.go: `init`, then `main`.
use openldap_operator.Base.{String, ◌≡◌, sym, ap, ◌∙◌, subst, ◌⊎◌, inl, inr, List, ◌++◌}
use openldap_operator.Go.{ok, lift}
use openldap_operator.Go.Calls.{IsUnanswered, >>=-cases}
use openldap_operator.Main.Process.{Runtime, SchemeCalls}
use openldap_operator.Main.Parts.{Part, Logs, Quiet, parts, IsStarted}
use openldap_operator.Main.Started.{main-starts}
use openldap_operator.Main.{init, main, program}

module _ {S W Level Config Manager Client Scheme Recorder Context : Type 0}
    (run : Runtime S W Level Config Manager Client Scheme Recorder Context)
    (calls : SchemeCalls Scheme) where
  -- Suppose that each call that gives the manager a controller or a check and succeeds is seen in a
  -- log, which the other calls before the start leave alone, and that no call before the start
  -- changes whether the manager runs. Then the program either starts a manager that `NewManager` made
  -- with the scheme of `init` and the options that the arguments parse to, in a state where the log
  -- has grown by just the controllers of directories, groups, organizational units and users and the
  -- two checks, and ends as the start does; or it ends without success and has not changed whether
  -- the manager runs.
  pub program-starts :
      {V : Type 0} (running : S → V) (log : S → List (Part W Client Scheme Recorder))
      → Quiet run running
      → Logs run log
      → (others args : List String) (s : S)
      → ((scheme : Scheme) × (init run calls ≡ ok scheme)
          × IsStarted run log scheme others args s (program run calls others args s))
        ⊎ (IsUnanswered (program run calls others args s).0
            × (running (program run calls others args s).1 ≡ running s))
  unfolding program lift
  program-starts running log quiet logs others args s =
      elim (>>=-cases (lift (init run calls)) (λ scheme. main run scheme others args) s) [
        | inr (_, fails, same) ↦ inr (fails, ap running same)
        | inl (scheme, s1, made, goes) ↦
            elim (main-starts run running log quiet logs scheme others args s1) [
              | inr (fails, same) ↦ inr (
                subst (λ r. IsUnanswered r.0) (sym goes) fails,
                ap (λ r. running r.1) goes ∙ same ∙ ap (λ r. running r.1) (sym made),
              )
              | inl st ↦ inl (
                scheme,
                ap (λ r. r.0) made,
                record {
                  options = st.options;
                  parses = st.parses;
                  manager = st.manager;
                  created = st.created;
                  context = st.context;
                  at = st.at;
                  logged = st.logged ∙ ap (λ r. parts run st.manager ++ log r.1) (sym made);
                  ends = goes ∙ st.ends;
                },
              )
            ]
      ]
