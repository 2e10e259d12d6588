-- ===== src/LocalFiles/Source.antt =====
-- Where LocalFiles finds the file that a URL names, and the URL and description of a published one.
use Prim.Native.String.{◌++◌, count}
use text.Mathlib.Text.{starts_with, ◌==◌ as str_eq}
use simple_cwl_xenon_service.Prelude.{
  ℕ, String, Bool, false, ◌&&◌, not, Option, none, some, List, [], ◌∷◌, if◌then◌else◌,
}
use simple_cwl_xenon_service.Exception.{
  Outcome, ok, raised, ◌>>=◌, or_raise, type_error, value_error, attribute_error,
}
use simple_cwl_xenon_service.FileSystem.{local, webdav, FilePath, at_root, child}
use simple_cwl_xenon_service.Text.{drop, rpartition}
use simple_cwl_xenon_service.Value.{Value, str, get_item, set_item}
use simple_cwl_xenon_service.Cwl.Files.{File, file, Files, no_files, add_file}
use simple_cwl_xenon_service.JobStore.Table.{Row}

-- What `urllib.parse.urlparse` answers, as far as the code reads it.
pub record Url : Type 0 where
  pub scheme : String
  pub path : String

-- The fields of a LocalFiles object, and the library functions that it calls.
pub record Exchange : Type 0 where
  pub basedir : FilePath
  pub baseurl : Option String
  pub urlparse : String → Url
  pub loads : String → Outcome Value
  pub dumps : Value → String
  pub hex : ℕ → String
  pub show_path : FilePath → String

-- A text operation on a location that is not a text.
abbrev pub as_text : Value → Outcome String
as_text (str s) = ok s
as_text _ = raised attribute_error

abbrev pub set_workflow_content : String → Row → Row
set_workflow_content content r = record r { workflow_content = some content }

abbrev pub set_local_output : String → Row → Row
set_local_output output r = record r { local_output = output }

-- `fs / name` of a WebDAV server, for an URL with that path.
abbrev web_path : Bool × String × String → FilePath
web_path (found, base, name) = child (at_root (webdav ("http://" ++ base))) name

-- `http` URLs, and `file` URLs where the client has no base URL.
unfoldable pub get_external_source : Option String → Url → Outcome FilePath
unfolding rpartition
get_external_source baseurl url =
    if str_eq url.scheme "file"
    then elim baseurl [
      | none ↦ ok (child (at_root local) url.path)
      | some base ↦
          raised
            (value_error (some ("Cerise is configured to only accept local files from " ++ base)))
    ]
    else if str_eq url.scheme "http"
    then ok (web_path (rpartition b'/' url.path))
    else raised (value_error (some ("Invalid scheme " ++ url.scheme)))

-- `self._baseurl and url.startswith(self._baseurl)`
abbrev pub is_exchanged : Option String → String → Bool
is_exchanged none url = false
is_exchanged (some base) url = not (str_eq base "") && starts_with url base

abbrev pub base_length : Option String → ℕ
base_length none = 0
base_length (some base) = count base

module _ (e : Exchange) where
  open e use {basedir, baseurl, urlparse, loads, dumps, hex, show_path}

  unfoldable pub get_source_from_url : String → Outcome FilePath
  unfolding get_external_source drop
  get_source_from_url url =
      if is_exchanged baseurl url
      then ok (child basedir (drop (base_length baseurl) url))
      else get_external_source baseurl (urlparse url)

  unfoldable mutual
    unfolding get_source_from_url

    -- `resolve_secondary_files`, with the files that have their source. The message of the log adds
    -- the location to a text.
    pub resolve_secondary_files : Files → Outcome Files
    resolve_secondary_files no_files = ok no_files
    resolve_secondary_files (add_file f fs) = do
      f' ← resolve_secondary_file f
      fs' ← resolve_secondary_files fs
      ok (add_file f' fs')

    pub resolve_secondary_file : File → Outcome File
    resolve_secondary_file (file name index location source nested) = do
      url ← elim location as (λ _. Outcome String) [ str s ↦ ok s | _ ↦ raised type_error ]
      source' ← get_source_from_url url
      nested' ← resolve_secondary_files nested
      ok (file name index location (some source') nested')

  unfoldable pub resolve_file : File → Outcome File
  unfolding get_source_from_url resolve_secondary_files
  resolve_file (file name index location source nested) = do
    url ← as_text location
    source' ← get_source_from_url url
    nested' ← resolve_secondary_files nested
    ok (file name index location (some source') nested')

  unfoldable pub resolve_files : List File → Outcome (List File)
  unfolding resolve_file
  resolve_files [] = ok []
  resolve_files (f ∷ fs) = do f' ← resolve_file f; fs' ← resolve_files fs; ok (f' ∷ fs')

  -- `self._to_external_url(rel_path)`
  unfoldable pub to_external_url : String → Outcome String
  to_external_url rel_path = or_raise baseurl type_error >>= λ base. ok (base ++ ("/" ++ rel_path))

  abbrev pub output_dir : ℕ → FilePath
  output_dir id = child (child basedir "output") (hex id)

  -- The description of an output file in the output document, with its new place.
  unfoldable pub publish_entry : ℕ → String → String → Value → Outcome Value
  unfolding to_external_url
  publish_entry id name location output = do
    url ← to_external_url ("output/" ++ (hex id ++ ("/" ++ location)))
    desc ← get_item name output
    desc' ← set_item "location" (str url) desc
    desc'' ← set_item "path" (str (show_path (child (output_dir id) location))) desc'
    set_item name desc'' output
