-- ===== src/Config/Places.antt =====
-- Where the configuration puts things: the port, the remote base directory, the file systems and the level of
-- the log. `make_file_system` is called once; what it was called with stands for the file system.
use Prim.Native.Char.{Char, code}
use text.Mathlib.Text.{◌==◌ as str_eq}
use simple_cwl_xenon_service.Prelude.{
  ◌≡◌, ap, String, ◌&&◌, Option, none, some, ◌==◌, if◌then◌else◌,
}
use simple_cwl_xenon_service.Prelude.Int.{ℤ, pos}
use simple_cwl_xenon_service.Exception.{
  Outcome, ok, raised, ◌>>=◌, attribute_error, type_error, runtime_error, bind-ok, ok-injective,
}
use simple_cwl_xenon_service.FileSystem.{FilePath, at_root, child, local, remote, webdav}
use simple_cwl_xenon_service.Text.{is_empty, strip, replace}
use simple_cwl_xenon_service.Value.{Value, null, int, str, dict, no_entries, is_in, get_item, get}
use simple_cwl_xenon_service.Config.{
  Environ, Config, files, Credential, get_or, get_username, get_credential,
}
use simple_cwl_xenon_service.LocalFiles.Source.{Url}

-- `int(...)` is a parameter.
unfoldable pub get_service_port : (Value → Outcome ℤ) → Config → Outcome ℤ
unfolding get_or
get_service_port to_int c = do
  rs_config ← get_or "rest-service" (dict no_entries) c.config
  port ← get_or "port" (int (pos 29593)) rs_config
  to_int port

-- `s.strip('/')`
unfoldable pub lstrip_slashes : String → String
lstrip_slashes String.[] = String.[]
lstrip_slashes (String.◌∷◌ c s) =
    let rest = lstrip_slashes s in if code c == b'/' then rest else String.◌∷◌ c s

abbrev rstrip_slash : Char → String → String
rstrip_slash c s = if (code c == b'/') && is_empty s then String.[] else String.◌∷◌ c s

unfoldable pub rstrip_slashes : String → String
rstrip_slashes String.[] = String.[]
rstrip_slashes (String.◌∷◌ c s) = rstrip_slash c (rstrip_slashes s)

unfoldable pub strip_slashes : String → String
unfolding lstrip_slashes rstrip_slashes
strip_slashes s = rstrip_slashes (lstrip_slashes s)

-- `basedir.replace('$CERISE_USERNAME', username)`, unless there is no user name.
abbrev with_username : Value → Value → Outcome Value
with_username null basedir = ok basedir
with_username (str name) (str basedir) = ok (str (replace "$CERISE_USERNAME" name basedir))
with_username _ (str basedir) = raised type_error
with_username _ _ = raised attribute_error

abbrev stripped : Value → Outcome String
stripped (str basedir) = ok (strip_slashes basedir)
stripped _ = raised attribute_error

-- The name of the base directory on the remote file system.
unfoldable pub basedir_name : Environ → Config → Outcome String
unfolding get_or get_username replace strip_slashes is_in get_item
basedir_name environ c = do
  let default = str "/home/$CERISE_USERNAME/.cerise"
  has_files ← is_in "files" c.cr_config
  basedir ←
      if has_files then (get_item "files" c.cr_config >>= get_or "path" default) else ok default
  name ← get_username environ c files
  basedir' ← with_username name basedir
  stripped basedir'

-- What `cerulean.make_file_system` is called with.
pub record FileSystemArguments : Type 0 where
  pub protocol : Value
  pub location : Value
  pub credential : Option Credential

unfoldable pub file_system_arguments : Environ → Config → Outcome FileSystemArguments
unfolding get_or get_credential is_in get_item get
file_system_arguments environ c = do
  has_files ← is_in "files" c.cr_config
  protocol ←
      if has_files
      then (get_item "files" c.cr_config >>= get_or "protocol" (str "local"))
      else ok (str "local")
  location ← if has_files then (get_item "files" c.cr_config >>= get "location") else ok null
  credential ← get_credential environ c files
  ok (record { protocol = protocol; location = location; credential = credential })

-- The global variable `_remote_file_system` is an argument and a second result.
unfoldable pub get_file_system :
    Environ
    → Config
    → Option FileSystemArguments
    → Outcome (FileSystemArguments × Option FileSystemArguments)
unfolding file_system_arguments
get_file_system environ c (some made) = ok (made, some made)
get_file_system environ c none = do made ← file_system_arguments environ c; ok (made, some made)

unfoldable pub get_basedir :
    Environ → Config → Option FileSystemArguments → Outcome (FilePath × Option FileSystemArguments)
unfolding basedir_name get_file_system
get_basedir environ c made = do
  basedir ← basedir_name environ c
  (_, made') ← get_file_system environ c made
  ok (child (at_root remote) basedir, made')

-- `getattr(logging, loglevel_str.upper(), None)` is the parameter `level_of`.
abbrev level_name : Environ → Config → Outcome Value
level_name environ c = do
  has_logging ← is_in "logging" c.config
  configured ←
      if has_logging
      then (get_item "logging" c.config >>= get_or "level" (str "INFO"))
      else ok (str "INFO")
  ok (by_environment (environ "CERISE_LOG_LEVEL") configured)
  where
    by_environment : Option String → Value → Value
    by_environment none configured = configured
    by_environment (some text) configured = str (strip text)

abbrev as_level : (String → Value) → Value → Outcome Value
as_level level_of (str name) = ok (level_of name)
as_level level_of _ = raised attribute_error

unfoldable pub get_log_level : (String → Value) → Environ → Config → Outcome Value
unfolding get_or strip is_in get_item
get_log_level level_of environ c = level_name environ c >>= as_level level_of

-- `urlparse` is a parameter. Of None it makes an URL with another scheme.
abbrev exchange_location : (String → Url) → Value → Outcome FilePath
exchange_location urlparse (str url) =
    let urlparts = urlparse url in
    if str_eq urlparts.scheme "file"
    then ok (child (at_root local) urlparts.path)
    else if str_eq urlparts.scheme "http"
    then ok (child (at_root (webdav url)) "")
    else raised runtime_error
exchange_location urlparse null = raised runtime_error
exchange_location urlparse _ = raised attribute_error

unfoldable pub get_store_location_service : (String → Url) → Config → Outcome FilePath
unfolding get_item
get_store_location_service urlparse c = do
  section ← get_item "client-file-exchange" c.config
  url ← get_item "store-location-service" section
  exchange_location urlparse url

-- Once get_file_system has returned a file system, it returns the same one ever after, whatever the
-- environment and the configuration say then.
pub get_file_system_twice :
    (environ later : Environ) (c d : Config) (made after : Option FileSystemArguments)
    (fs : FileSystemArguments)
    → get_file_system environ c made ≡ ok (fs, after)
    → get_file_system later d after ≡ ok (fs, after)
unfolding get_file_system
get_file_system_twice environ later c d (some fs') after fs e =
    let pair = ok-injective (fs', some fs') (fs, after) e in
    rw (← ap (λ x. x.1) pair) (ap (λ x. ok (x, some fs')) (ap (λ x. x.0) pair))
get_file_system_twice environ later c d none after fs e =
    let (made, answer, e₁) = bind-ok (file_system_arguments environ c) _ (fs, after) e in
    let pair = ok-injective (made, some made) (fs, after) e₁ in
    rw (← ap (λ x. x.1) pair) (ap (λ x. ok (x, some made)) (ap (λ x. x.0) pair))
