-- ===== src/RemoteApi.antt =====
-- cerise/back_end/remote_api.py: the class RemoteApi. This file is about finding the projects and telling
-- which are out of date; Translate is about documents, Install and Projects about the installation. The
-- names that `iterdir` gives are relative to the directory here.
pub mod Versions
pub mod Translate
pub mod Laws
pub mod Steps
pub mod Install
pub mod Projects
pub mod Attempts
pub mod Installing
use Prim.Native.String
use simple_cwl_xenon_service.Prelude.{
  String, Bool, true, false, not, Option, none, some, List, [], ◌∷◌, ◌++◌, if◌then◌else◌,
}
use simple_cwl_xenon_service.Exception.{Outcome, or_raise, runtime_error, type_error}
use simple_cwl_xenon_service.FileSystem.{FilePath, child, exists, is_dir, read_text, iterdir}
use simple_cwl_xenon_service.Text.{strip}
use simple_cwl_xenon_service.Value.{Value}
use simple_cwl_xenon_service.World.{Site, M, pure, raise, lift, ◌>>=◌, ◌>>◌, unless, ask}
use Versions.{parse_version, is_outdated}
use Translate.{translate_document}

-- The fields of a RemoteApi object, and the library functions that it calls.
pub record Api : Type 0 where
  pub local_api_dir : FilePath
  pub remote_api_dir : FilePath
  pub username : Option String
  pub safe_load : String → Outcome Value
  pub dumps : Value → String
  pub show_path : FilePath → String

module _ (site : Site) (api : Api) where
  open api use {local_api_dir, remote_api_dir, safe_load, dumps, show_path}

  -- Content that was never resolved is None, which `str` cannot decode.
  unfoldable pub translate_workflow : Option String → M String
  unfolding translate_document
  translate_workflow workflow_content = do
    content ← lift (or_raise workflow_content type_error)
    workflow ← lift (safe_load content)
    workflow' ← lift (translate_document remote_api_dir show_path workflow)
    pure (dumps workflow')

  -- The entry of a directory of the local API, if it is a project.
  unfoldable pub describe : Bool → String → M (List String)
  describe false name = pure []
  describe true name = do
    content ← ask site.text_reply (read_text (child (child local_api_dir name) "version"))
    pure (String.◌++◌ name (String.◌++◌ " " (strip content)) ∷ [])

  -- The loop over the project directories.
  unfoldable pub list_projects : List String → M (List String)
  unfolding describe
  list_projects [] = pure []
  list_projects (name ∷ names) = do
    directory ← ask site.test_reply (is_dir (child local_api_dir name))
    here ← describe directory name
    rest ← list_projects names
    pure (here ++ rest)

  unfoldable pub get_projects : M (List String)
  unfolding list_projects
  get_projects = ask site.names_reply (iterdir local_api_dir) >>= list_projects

  -- Whether a project is out of date; a local project without a version is an error.
  unfoldable pub is_updatable : String → M Bool
  unfolding parse_version is_outdated
  is_updatable name = do
    has_version ← ask site.test_reply (exists (child (child local_api_dir name) "version"))
    if not has_version then raise runtime_error else do
      local_content ← ask site.text_reply (read_text (child (child local_api_dir name) "version"))
      installed ← ask site.test_reply (exists (child (child remote_api_dir name) "version"))
      if not installed then pure true else do
        remote_content ←
            ask site.text_reply (read_text (child (child remote_api_dir name) "version"))
        pure (is_outdated (parse_version local_content) (parse_version remote_content))

  abbrev pub if_updatable : String → M (List String)
  if_updatable name = do
    directory ← ask site.test_reply (is_dir (child local_api_dir name))
    updatable ← if directory then is_updatable name else pure false
    pure (if updatable then name ∷ [] else [])

  unfoldable pub select_updatable : List String → M (List String)
  unfolding is_updatable
  select_updatable [] = pure []
  select_updatable (name ∷ names) = do
    here ← if_updatable name
    rest ← select_updatable names
    pure (here ++ rest)

  unfoldable pub updatable_projects : M (List String)
  unfolding select_updatable
  updatable_projects = ask site.names_reply (iterdir local_api_dir) >>= select_updatable

  abbrev is_not_empty : List String → Bool
  is_not_empty [] = false
  is_not_empty (name ∷ names) = true

  unfoldable pub update_available : M Bool
  unfolding updatable_projects
  update_available = do names ← updatable_projects; pure (is_not_empty names)
