-- ===== src/Config.antt =====
-- cerise/config.py: the class Config, as far as its answers are read off the two documents and the
-- environment. `cerulean` makes a scheduler or file system of the arguments that are computed here.
pub mod Laws
pub mod Places
use text.Mathlib.Text.{◌==◌ as str_eq}
use simple_cwl_xenon_service.Prelude.{
  zero, String, Bool, true, false, ◌&&◌, not, Option, none, some, if◌then◌else◌, is_some,
}
use simple_cwl_xenon_service.Prelude.Int.{ℤ, pos}
use simple_cwl_xenon_service.Exception.{Outcome, ok, raised, ◌>>=◌, attribute_error}
use simple_cwl_xenon_service.Value.{
  Value, null, bool, int, str, list, dict, no_entries, no_items, lookup, is_in, get_item, get,
  truth,
}

-- The fields of a Config.
pub record Config : Type 0 where
  pub config : Value
  pub api_config : Value
  pub cr_config : Value

-- `os.environ`
abbrev pub Environ : Type 0
Environ = String → Option String

-- `Config.__init__`
unfoldable pub make : Value → Value → Outcome Config
make config api_config = do
  has_resource ← is_in "compute-resource" api_config
  cr_config ← if has_resource then get_item "compute-resource" api_config else ok (dict no_entries)
  ok (record { config = config; api_config = api_config; cr_config = cr_config })

-- The values of `kind` that the program passes, and the names of the variables of a credential.
pub data Kind : Type 0 where
  files jobs : Kind

pub data CredentialName : Type 0 where
  username password certfile passphrase : CredentialName

abbrev pub kind_key : Kind → String
kind_key files = "files"
kind_key jobs = "jobs"

abbrev pub name_key : CredentialName → String
name_key username = "username"
name_key password = "password"
name_key certfile = "certfile"
name_key passphrase = "passphrase"

-- `env_var(kind, name)`, where `none` is the empty kind.
unfoldable pub env_var : Option Kind → CredentialName → String
env_var none username = "CERISE_USERNAME"
env_var none password = "CERISE_PASSWORD"
env_var none certfile = "CERISE_CERTFILE"
env_var none passphrase = "CERISE_PASSPHRASE"
env_var (some files) username = "CERISE_FILES_USERNAME"
env_var (some files) password = "CERISE_FILES_PASSWORD"
env_var (some files) certfile = "CERISE_FILES_CERTFILE"
env_var (some files) passphrase = "CERISE_FILES_PASSPHRASE"
env_var (some jobs) username = "CERISE_JOBS_USERNAME"
env_var (some jobs) password = "CERISE_JOBS_PASSWORD"
env_var (some jobs) certfile = "CERISE_JOBS_CERTFILE"
env_var (some jobs) passphrase = "CERISE_JOBS_PASSPHRASE"

-- `a and b`, which evaluates `b` only if `a` holds.
abbrev pub and_then : Outcome Bool → Outcome Bool → Outcome Bool
and_then (ok true) b = b
and_then (ok false) b = ok false
and_then (raised e) b = raised e

-- `'credentials' in section and name in section['credentials']`
abbrev pub has_credential : CredentialName → Value → Outcome Bool
has_credential name section =
    and_then (is_in "credentials" section)
      (get_item "credentials" section >>= is_in (name_key name))

unfoldable pub have_config : Config → Option Kind → CredentialName → Outcome Bool
have_config c none name = has_credential name c.cr_config
have_config c (some kind) name =
    and_then (is_in (kind_key kind) c.cr_config)
      (get_item (kind_key kind) c.cr_config >>= has_credential name)

unfoldable pub get_config : Config → Option Kind → CredentialName → Outcome Value
get_config c none name = get_item "credentials" c.cr_config >>= get_item (name_key name)
get_config c (some kind) name =
    get_item (kind_key kind) c.cr_config >>= get_item "credentials" >>= get_item (name_key name)

-- `if have_config(kind, name): value = get_config(kind, name)`
unfoldable pub override_by_config : Config → Option Kind → CredentialName → Value → Outcome Value
override_by_config c kind name value = do
  found ← have_config c kind name
  if found then get_config c kind name else ok value

-- `if have_env(kind, name): value = get_env(kind, name)`
abbrev pub override : Option String → Value → Value
override none value = value
override (some text) value = str text

unfoldable pub get_credential_variable : Environ → Config → Kind → CredentialName → Outcome Value
unfolding override_by_config
get_credential_variable environ c kind name = do
  value ← override_by_config c none name null
  let value = override (environ (env_var none name)) value
  value ← override_by_config c (some kind) name value
  ok (override (environ (env_var (some kind) name)) value)

-- The credentials of cerulean that the code makes.
pub data Credential : Type 0 where
  pub_key : (user certificate phrase : Value) → Credential
  by_password : (user word : Value) → Credential

abbrev pub choose_credential : (user word certificate phrase : Value) → Option Credential
choose_credential user word certificate phrase =
    if truth user && truth certificate
    then some (pub_key user certificate phrase)
    else if truth user && truth word
    then some (by_password user word)
    else none

unfoldable pub get_credential : Environ → Config → Kind → Outcome (Option Credential)
unfolding get_credential_variable
get_credential environ c kind = do
  user ← get_credential_variable environ c kind username
  word ← get_credential_variable environ c kind password
  certificate ← get_credential_variable environ c kind certfile
  phrase ← get_credential_variable environ c kind passphrase
  ok (choose_credential user word certificate phrase)

unfoldable pub get_username : Environ → Config → Kind → Outcome Value
unfolding get_credential_variable
get_username environ c kind = get_credential_variable environ c kind username

-- `v.get(key, default)`
abbrev pub or_default : Option Value → Value → Value
or_default none default = default
or_default (some v) default = v

unfoldable pub get_or : String → Value → Value → Outcome Value
get_or key default (dict es) = ok (or_default (lookup key es) default)
get_or key default _ = raised attribute_error

unfoldable pub get_service_host : Config → Outcome Value
unfolding get_or
get_service_host c =
    get_or "rest-service" (dict no_entries) c.config >>= get_or "hostname" (str "127.0.0.1")

-- `default` without a section `jobs`, or else that section's entry, which has the same default.
unfoldable pub get_jobs_setting : String → Value → Config → Outcome Value
unfolding get_or
get_jobs_setting key default c = do
  has_jobs ← is_in "jobs" c.cr_config
  if has_jobs then (get_item "jobs" c.cr_config >>= get_or key default) else ok default

unfoldable pub get_remote_cwl_runner : Config → Outcome Value
unfolding get_jobs_setting
get_remote_cwl_runner c =
    get_jobs_setting "cwl-runner" (str "$CERISE_API/cerise/files/cwltiny.py") c

unfoldable pub get_queue_name : Config → Outcome Value
unfolding get_jobs_setting
get_queue_name c = get_jobs_setting "queue-name" null c

unfoldable pub get_slots_per_node : Config → Outcome Value
unfolding get_jobs_setting
get_slots_per_node c = get_jobs_setting "slots-per-node" (int (pos 1)) c

unfoldable pub get_scheduler_options : Config → Outcome Value
unfolding get_jobs_setting
get_scheduler_options c = get_jobs_setting "scheduler-options" null c

unfoldable pub get_cores_per_node : Config → Outcome Value
unfolding get_jobs_setting
get_cores_per_node c = get_jobs_setting "cores-per-node" (int (pos 32)) c

unfoldable pub get_database_location : Config → Outcome Value
get_database_location c = get_item "database" c.config >>= get_item "file"

unfoldable pub get_pid_file : Config → Outcome Value
get_pid_file c = get "pidfile" c.config

unfoldable pub has_logging : Config → Outcome Bool
has_logging c = is_in "logging" c.config

unfoldable pub get_log_file : Config → Outcome Value
unfolding get_or
get_log_file c =
    get_item "logging" c.config >>= get_or "file" (str "/var/log/cerise/cerise_backend.log")

unfoldable pub get_base_url : Environ → Config → Outcome Value
unfolding get_or
get_base_url environ c = elim (environ "CERISE_BASE_URL") [
  | some url ↦ ok (str url)
  | none ↦ get_or "rest-service" (dict no_entries) c.config >>= get_or "base-url" (str "")
]

unfoldable pub get_store_location_client : Environ → Config → Outcome Value
get_store_location_client environ c = elim (environ "CERISE_STORE_LOCATION_CLIENT") [
  | some url ↦ ok (str url)
  | none ↦ get_item "client-file-exchange" c.config >>= get "store-location-client"
]

-- What `get_scheduler` passes to `cerulean.make_terminal` and `cerulean.make_scheduler`.
pub record SchedulerArguments : Type 0 where
  pub protocol : Value
  pub location : Value
  pub scheduler_type : Value
  pub credential : Option Credential

unfoldable pub get_scheduler : Bool → Environ → Config → Outcome SchedulerArguments
unfolding get_jobs_setting get_credential
get_scheduler run_on_head_node environ c = do
  protocol ← get_jobs_setting "protocol" (str "local") c
  location ← get_jobs_setting "location" null c
  configured ← get_jobs_setting "scheduler" (str "directgnu") c
  credential ← get_credential environ c jobs
  ok (record {
    protocol = protocol;
    location = location;
    scheduler_type = if run_on_head_node then str "directgnu" else configured;
    credential = credential;
  })
