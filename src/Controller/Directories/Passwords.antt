-- ===== src/Controller/Directories/Passwords.antt =====
-- The admin password: made by the reconciler of directories
-- (internal/controller/ldapdirectory_controller.go), and read by the builder of clients
-- (internal/ldap/client_builder.go).
use openldap_operator.Base.{String, ◌≡◌, refl, sym, ◌∙◌, ap, subst, some, [], ◌∷◌}
use openldap_operator.Go.{
  Fault, Error, fault, wrapf, Result, ok, err, panic, unfinished, lift, map_err, call_or,
}
use openldap_operator.Go.Calls.{>>=-ok, >>=-eq-ok, call_or-ok, call_or-eq-ok}
use openldap_operator.Go.Ensures.{Ensures->>=, Ensures->>=_value, Ensures-pure}
use openldap_operator.Api.{LdapDirectory, Secret, value_of, lookup}
use openldap_operator.Ldap.Client.{Client}
use openldap_operator.Ldap.Builder.{
  ClientBuilder, BuildCalls, build, not_nil, new_client_builder, with_client, with_scheme,
  with_directory, ca_bundle, admin_password_secret_name,
}
use openldap_operator.Controller.Directories.Calls.{DirectoryKube}
use openldap_operator.Controller.Directories.Templates.{resource_meta}
use openldap_operator.Controller.Directories.{
  create_admin_password, admin_password_secret, admin_password_length,
}

pub map_err-eq-ok :
    {A : Type 0} (f : Fault → Error) (r : Result Fault A) {a : A} → map_err f r ≡ ok a → r ≡ ok a
map_err-eq-ok f (ok a) e = cc
map_err-eq-ok f (err x) e = absurd (cc e)
map_err-eq-ok f (panic p) e = absurd (cc e)
map_err-eq-ok f unfinished e = absurd (cc e)

-- `NewClientBuilder().WithClient(c).WithScheme(scheme).WithDirectory(d)`
abbrev pub builder_of : {C Scheme : Type 0} → C → Scheme → LdapDirectory → ClientBuilder C Scheme
builder_of c scheme d = with_directory (with_scheme (with_client new_client_builder c) scheme) d

module _ {S C Scheme : Type 0} (calls : BuildCalls S C Scheme) where
  -- A client that `Build` makes has the password that it found.
  build-password :
      (c : C) (scheme : Scheme) (d : LdapDirectory) (secret : Secret) (s t u : S) (client : Client)
      → calls.get_secret c d.meta.namespace (admin_password_secret_name d) s ≡ (ok secret, u)
      → build calls (builder_of c scheme d) s ≡ (ok client, t)
      → client.admin_password ≡ value_of secret.contents "password"
  unfolding build with_directory with_scheme with_client not_nil lift
  build-password c scheme d secret s t u client found h =
      (Ensures->>= {Q = λ x w. x.admin_password ≡ value_of secret.contents "password"}
          (ca_bundle calls c (some scheme) d) _ (λ pool. Ensures-pure _ (λ w. refl))).after
        u t client
        (sym (
            >>=-ok (lift (ok d)) _ {s = s} {t = s} refl
            ∙ >>=-ok (lift (ok c)) _ {s = s} {t = s} refl
            ∙ >>=-ok (call_or _ (calls.get_secret c _ _)) _ (call_or-ok _ _ found))
          ∙ h)

module _ {S : Type 0} (k : DirectoryKube S)
    (owned : (d : LdapDirectory) (x y : Secret)
      → k.set_secret_owner d x ≡ ok y
      → (y.meta.name ≡ x.meta.name)
        × (y.meta.namespace ≡ x.meta.namespace)
        × (y.contents ≡ x.contents)) where
  -- The last that was done was to create the secret of the admin password of `d`, with `pw`.
  abbrev Stored : LdapDirectory → String → S → Type 0
  Stored d pw t =
      (x : Secret) × (s : S) × (x.meta.name ≡ admin_password_secret_name d)
      × (x.meta.namespace ≡ d.meta.namespace)
      × (x.contents ≡ ("password", pw) ∷ [])
      × (k.create_secret x s ≡ (ok tt, t))

  create_secret-Stored :
      (d : LdapDirectory) (pw : String) (x : Secret) (s t : S)
      → map_err
          (λ f. wrapf "failed to set owner reference on admin password secret" (fault f))
          (k.set_secret_owner d
            (record (admin_password_secret d) { contents = ("password", pw) ∷ [] }))
        ≡ ok x
      → call_or "failed to create admin password secret" (k.create_secret x) s ≡ (ok tt, t)
      → Stored d pw t
  unfolding admin_password_secret resource_meta
  create_secret-Stored d pw x s t e h =
      let kept = owned d _ x (map_err-eq-ok _ _ e) in
      (x, s, kept.0, kept.1, kept.2, call_or-eq-ok _ (k.create_secret x) h)

  create_admin_password-Stored :
      (d : LdapDirectory) (s t : S)
      → create_admin_password k d s ≡ (ok tt, t)
      → (pw : String) × (u : S) × (k.generate_password 32 s ≡ (ok pw, u)) × Stored d pw t
  unfolding create_admin_password lift
  create_admin_password-Stored d s t h =
      let (pw, u, e, rest) = >>=-eq-ok (call_or _ (k.generate_password 32)) _ h in
      (
        pw,
        u,
        call_or-eq-ok _ (k.generate_password 32) e,
        (Ensures->>=_value {Q = λ _ w. Stored d pw w} _ _
              λ v v' w x _ e' h'. create_secret-Stored d pw x v' w (ap (λ p. p.0) e') h').after
            u t tt rest,
      )

-- Suppose that to set an owner leaves the name, the namespace and the contents of a secret as they
-- are, and that a secret that was just created is read back with its contents. Where the reconciler
-- then makes the admin password of a directory with success, it has generated 32 characters, and
-- the client that `Build` makes for the directory at once has them as its password.
pub create_admin_password-build :
    {S C Scheme : Type 0} (k : DirectoryKube S) (calls : BuildCalls S C Scheme)
    → ((d : LdapDirectory) (x y : Secret)
        → k.set_secret_owner d x ≡ ok y
        → (y.meta.name ≡ x.meta.name)
          × (y.meta.namespace ≡ x.meta.namespace)
          × (y.contents ≡ x.contents))
    → ((c : C) (x : Secret) (s t : S)
        → k.create_secret x s ≡ (ok tt, t)
        → (y : Secret) × (u : S) × (calls.get_secret c x.meta.namespace x.meta.name t ≡ (ok y, u))
          × (y.contents ≡ x.contents))
    → (c : C) (scheme : Scheme) (d : LdapDirectory) (s t u : S) (client : Client)
    → create_admin_password k d s ≡ (ok tt, t)
    → build calls (builder_of c scheme d) t ≡ (ok client, u)
    → (v : S) × (k.generate_password admin_password_length s ≡ (ok client.admin_password, v))
unfolding value_of lookup
create_admin_password-build k calls owned read c scheme d s t u client h h' =
    let (pw, v, generated, stored) = create_admin_password-Stored k owned d s t h in
    let (x, w, name, namespace, contents, created) = stored in
    let (y, w', got, same) = read c x w t created in
    let password =
      build-password calls c scheme d y t u w' client
        (subst (λ n. calls.get_secret c d.meta.namespace n t ≡ (ok y, w')) name
          (subst (λ n. calls.get_secret c n x.meta.name t ≡ (ok y, w')) namespace got))
        h' in
    (
      v,
      generated
          ∙ ap (λ p. (ok p, v))
              (sym (password ∙ ap (λ l. value_of l "password") (same ∙ contents))),
    )
