-- ===== src/Controller/Directories/Templates/Environment.antt =====
-- The environment of the containers of a directory's stateful set
-- (internal/controller/ldapdirectory_controller.go).
use openldap_operator.Base.{
  String, ◌==◌, ◌≡◌, refl, ap, Option, none, some, List, [], ◌∷◌, ◌++◌, if◌then◌else◌,
}
use openldap_operator.Go.Ints.{ℤ}
use openldap_operator.Go.Ints.Reading.{read_int, read_int-itoa}
use openldap_operator.Api.{LdapDirectory}
use openldap_operator.Controller.Directories.Resources.{EnvVar, plain, from_secret}
use openldap_operator.Controller.Directories.Templates.{
  env_vars, optional_env, init_container, container,
}

-- The value of a variable that is given as it is.
abbrev pub value_in : String → List EnvVar → Option String
value_in name [] = none
value_in name (plain n v ∷ l) = if n == name then some v else value_in name l
value_in name (from_secret n secret key ∷ l) = if n == name then none else value_in name l

-- The number in a variable.
abbrev pub number_in : String → List EnvVar → Option ℤ
number_in name l = elim (value_in name l) [ none ↦ none | some v ↦ some (read_int v) ]

numbers-read :
    (limit level : Option ℤ)
    → (number_in "LDAP_NOFILE"
          (optional_env "LDAP_NOFILE" limit ++ optional_env "LDAP_DEBUG_LEVEL" level)
        ≡ limit)
      × (number_in "LDAP_DEBUG_LEVEL"
            (optional_env "LDAP_NOFILE" limit ++ optional_env "LDAP_DEBUG_LEVEL" level)
          ≡ level)
unfolding optional_env
numbers-read none none = (refl, refl)
numbers-read none (some n) = (refl, ap some (read_int-itoa n))
numbers-read (some m) none = (ap some (read_int-itoa m), refl)
numbers-read (some m) (some n) = (ap some (read_int-itoa m), ap some (read_int-itoa n))

-- In the environment of both containers of every directory, the limit of file descriptors and the
-- debug level are read back as the directory's specification has them, and are missing where the
-- specification leaves them out.
pub env_vars-read :
    (d : LdapDirectory)
    → (number_in "LDAP_NOFILE" (init_container d).env ≡ d.spec.file_descriptor_limit)
      × (number_in "LDAP_DEBUG_LEVEL" (init_container d).env ≡ d.spec.debug_level)
      × (number_in "LDAP_NOFILE" (container d).env ≡ d.spec.file_descriptor_limit)
      × (number_in "LDAP_DEBUG_LEVEL" (container d).env ≡ d.spec.debug_level)
unfolding env_vars init_container container
env_vars-read d =
    let both = numbers-read d.spec.file_descriptor_limit d.spec.debug_level in
    (both.0, both.1, both.0, both.1)
