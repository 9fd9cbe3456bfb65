-- ===== src/Tests/Directories.antt =====
-- The reconciler of directories on a small cluster.
use openldap_operator.Base.{
  ℕ, suc, String, ◌==◌, ◌≡◌, ◌≢◌, refl, sym, ap, ◌∙◌, Bool, true, false, ◌&&◌, Option, none, some,
  [], ◌∷◌, if◌then◌else◌,
}
use mathlib.Core.Bool.{false≢true}
use openldap_operator.Go.{Fault, Error, Result, ok, err, ◌>>=◌}
use openldap_operator.Api.{
  is_zero, Phase, unset, pending, ready, failed, LdapDirectory, Secret, secret,
}
use openldap_operator.Api.References.{resolve_directory_references}
use openldap_operator.Controller.{NamespacedName}
use openldap_operator.Controller.Marks.{is_ready, done}
use openldap_operator.Controller.Directories.Resources.{StatefulSetState}
use openldap_operator.Controller.Directories.Calls.{DirectoryKube}
use openldap_operator.Controller.Directories.Templates.{put}
use openldap_operator.Controller.Directories.Marks.{
  write_pending, write_ready, write_failed, with_phase,
}
use openldap_operator.Controller.Directories.{reconcile, replicas_ready}
use openldap_operator.Controller.Directories.Stages.{CallsPreserve}
use openldap_operator.Controller.Directories.Settled.{Ended}
use openldap_operator.Controller.Directories.Endings.{reconcile-Ended}
use openldap_operator.Controller.Directories.Readiness.{reconcile-unready_stateful_set}
use openldap_operator.Controller.Directories.Deletion.{Deletes, reconcile-deleted}
use openldap_operator.Tests.Samples.{meta, directory_in}

-- The phase that is stored for the directory, the secrets by namespace and name, and how often a
-- stateful set or a service was written.
pub record World : Type 0 where
  pub phase : Phase
  pub secrets : String → String → Option Secret
  pub writes : ℕ

abbrev pub empty : World
empty = record { phase = unset; secrets = λ namespace name. none; writes = 0 }

abbrev pub missing : Fault
missing = record { text = "not found"; not_found = true; result_code = none }

abbrev pub read_secret : Option Secret → Result Fault Secret
read_secret none = err missing
read_secret (some x) = ok x

abbrev pub store : Secret → World → World
store x w = record w {
  secrets = λ namespace name.
      if x.meta.namespace == namespace && x.meta.name == name
      then some x
      else w.secrets namespace name;
}

abbrev applied : World → World
applied w = record w { writes = suc w.writes }

-- A cluster with one directory, whose stateful set has some ready replicas out of one.
abbrev pub cluster : Option ℕ → ℕ → DirectoryKube World
cluster deletion ready_replicas = record {
  reader = record {
    resolve_object = λ ref o s. (record { object = none; found = false; error = none }, s);
    resolve_local_object = λ ref o s. (record { object = none; found = false; error = none }, s);
    resolve_secret = λ ref o s. (
      record {
        object = some (secret (record { meta = meta "certificate"; contents = [] }));
        found = true;
        error = none;
      },
      s,
    );
  };
  get = λ req s. (
    ok (record (directory_in s.phase "example.com") {
      meta = record (meta "directory") { deletion_timestamp = deletion };
    }),
    s,
  );
  create_or_patch = λ d f s. ((d, ok tt), s);
  update_status = λ key d f s. (ok tt, record s { phase = (f d).status.phase });
  set_status_condition = λ cs c. put (λ x. x.type) c cs;
  event = λ d t r m s. s;
  contains_finalizer = λ d f. true;
  add_finalizer = λ d f. d;
  remove_finalizer = λ d f. d;
  get_secret = λ key s. (read_secret (s.secrets key.namespace key.name), s);
  generate_password = λ n s. (ok "0123456789abcdef0123456789abcdef", s);
  set_secret_owner = λ d x. ok x;
  create_secret = λ x s. (ok tt, store x s);
  set_owner_reference = λ d x. ok x;
  set_controller_reference = λ d x. ok x;
  apply_stateful_set = λ x s. (ok tt, applied s);
  apply_service = λ x s. (ok tt, applied s);
  get_stateful_set =
      λ key s. (ok (record { replicas = some 1; ready_replicas = ready_replicas }), s);
}

abbrev pub request : NamespacedName
request = record { namespace = "default"; name = "directory" }

pub cluster-preserves :
    (deletion : Option ℕ) (n : ℕ) (P : World → Type 0)
    → ((s : World) → P s → P (applied s))
    → CallsPreserve (cluster deletion n) P
cluster-preserves deletion n P h = record {
  resolve_secret = λ ref o s p. p;
  get = λ req. record { at = λ s p. p };
  create_or_patch = λ d f s p. p;
  event = λ d t r m s p. p;
  get_secret = λ key. record { at = λ s p. p };
  generate_password = λ m. record { at = λ s p. p };
  apply_stateful_set = λ x. record { at = h };
  apply_service = λ x. record { at = h };
  get_stateful_set = λ key. record { at = λ s p. p };
}

pending≢ready : pending ≢ ready
unfolding is_ready
pending≢ready e = false≢true (ap is_ready e)

failed≢ready : failed ≢ ready
unfolding is_ready
failed≢ready e = false≢true (ap is_ready e)

unset≢ready : unset ≢ ready
unfolding is_ready
unset≢ready e = false≢true (ap is_ready e)

no_replicas :
    (key : NamespacedName) (s t : World) (sts : StatefulSetState)
    → (cluster none 0).get_stateful_set key s ≡ (ok sts, t)
    → ¬ (replicas_ready sts ≡ ok true)
unfolding replicas_ready
no_replicas key s t sts e h = cc (ap state e ∙ h)
  where
    state : Result Fault StatefulSetState × World → Result Error Bool
    state (ok x, w) = replicas_ready x
    state _ = ok false

reconcile-unready_stateful_set_example :
    ¬ ((reconcile (cluster none 0) request empty).1.phase ≡ ready)
unfolding write_pending write_failed with_phase
reconcile-unready_stateful_set_example =
    reconcile-unready_stateful_set (cluster none 0) (λ s. s.phase)
      (cluster-preserves none 0 (λ s. ¬ (s.phase ≡ ready)) (λ s h. h))
      (λ x. record { at = λ s h. h }) (λ d. record { at = λ s h. pending≢ready })
      (λ e d. record { at = λ s h. failed≢ready }) no_replicas request empty unset≢ready

abbrev pub found_secret : String → Secret
found_secret password = record {
  meta = record (meta "ldap-directory-admin-password") { generation = 0 };
  contents = ("password", password) ∷ [];
}

test_ready :
    reconcile (cluster none 1) request (store (found_secret "old") empty)
    ≡ (ok done, record (store (found_secret "old") empty) { phase = ready; writes = 2 })
unfolding reconcile ◌>>=◌ resolve_directory_references write_ready write_pending with_phase is_ready
    is_zero
test_ready = refl

reconcile-Ended_example :
    Ended
      (cluster none 1)
      request
      (store (found_secret "old") empty)
      done
      (record (store (found_secret "old") empty) { phase = ready; writes = 2 })
reconcile-Ended_example =
    reconcile-Ended (cluster none 1) request (store (found_secret "old") empty)
      (record (store (found_secret "old") empty) { phase = ready; writes = 2 }) done test_ready

cluster-Deletes : Deletes (cluster (some 7) 1) (λ s. s.writes)
unfolding is_zero
cluster-Deletes = record {
  get = λ v req. record { at = λ s h. h };
  create_or_patch = λ v d f s h. h;
  deleting = λ req s d e. ap (timestamp d) (sym e);
  stays = λ d f s h. h;
}
  where
    timestamp : LdapDirectory → Result Fault LdapDirectory → Bool
    timestamp d (ok x) = is_zero x.meta.deletion_timestamp
    timestamp d _ = is_zero d.meta.deletion_timestamp

reconcile-deleted_example : (reconcile (cluster (some 7) 1) request empty).1.writes ≡ 0
reconcile-deleted_example =
    reconcile-deleted (cluster (some 7) 1) (λ s. s.writes) cluster-Deletes request empty
