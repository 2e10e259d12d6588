-- ===== src/Config/Laws.antt =====
-- Which of the four places of a credential variable wins.
use simple_cwl_xenon_service.Prelude.{◌≡◌, refl, true, false, String, Option, none, some, arith}
use simple_cwl_xenon_service.Exception.{ok}
use simple_cwl_xenon_service.Value.{Value, null, str}
use simple_cwl_xenon_service.Config.{
  Config, Environ, Kind, CredentialName, env_var, have_config, get_config, override_by_config,
  override, get_credential_variable,
}

-- The configuration file has the variable with the value, or has it not.
abbrev pub Configured : Config → Option Kind → CredentialName → Option Value → Type 0
Configured c kind name none = have_config c kind name ≡ ok false
Configured c kind name (some v) =
    (have_config c kind name ≡ ok true) × (get_config c kind name ≡ ok v)

-- The first place, in the order of the arguments, that has a value.
abbrev pub first_of :
    (env_kind : Option String) (config_kind : Option Value) (env_all : Option String)
    (config_all : Option Value)
    → Value
first_of (some text) _ _ _ = str text
first_of none (some v) _ _ = v
first_of none none (some text) _ = str text
first_of none none none (some v) = v
first_of none none none none = null

abbrev pub or_else : Option Value → Value → Value
or_else none value = value
or_else (some v) value = v

override_by_config-Configured :
    (c : Config) (kind : Option Kind) (name : CredentialName) (o : Option Value) (value : Value)
    → Configured c kind name o
    → override_by_config c kind name value ≡ ok (or_else o value)
unfolding override_by_config
override_by_config-Configured c kind name none value h = rw h refl
override_by_config-Configured c kind name (some v) value h = rw (h.0, h.1) refl

first_of_lem :
    (env_kind env_all : Option String) (config_kind config_all : Option Value)
    → override env_kind (or_else config_kind (override env_all (or_else config_all null)))
      ≡ first_of env_kind config_kind env_all config_all
first_of_lem env_kind env_all config_kind config_all = ground arith

-- A variable of a credential is taken from the environment variable for the kind, else from the
-- configuration of the kind, else from the general environment variable, else from the general
-- configuration, and is None otherwise; it is assumed that the sections of the configuration file
-- can be searched.
pub get_credential_variable-first_of :
    (environ : Environ) (c : Config) (kind : Kind) (name : CredentialName)
    (config_kind config_all : Option Value)
    → Configured c (some kind) name config_kind
    → Configured c none name config_all
    → get_credential_variable environ c kind name
      ≡ ok (
          first_of
            (environ (env_var (some kind) name))
            config_kind
            (environ (env_var none name))
            config_all)
unfolding get_credential_variable
get_credential_variable-first_of environ c kind name config_kind config_all h k =
    rw
      (
        override_by_config-Configured c none name config_all null k,
        override_by_config-Configured c (some kind) name config_kind _ h,
        first_of_lem (environ (env_var (some kind) name)) (environ (env_var none name)) config_kind
            config_all,
      )
      refl
