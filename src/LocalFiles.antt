-- ===== src/LocalFiles.antt =====
-- cerise/back_end/local_files.py: the class LocalFiles, which resolves the input of jobs and publishes
-- their output in the file exchange. `urlparse`, the JSON codec and the writing of ids and paths are
-- parameters.
pub mod Source
pub mod Laws
use simple_cwl_xenon_service.Prelude.{
  ℕ, String, Bool, true, false, not, Option, none, some, List, [], ◌∷◌,
}
use simple_cwl_xenon_service.Exception.{Outcome, or_raise, type_error, attribute_error}
use simple_cwl_xenon_service.FileSystem.{
  FilePath, child, mkdir, rmdir_recursive, is_dir, read_bytes, copy,
}
use simple_cwl_xenon_service.Value.{Value}
use simple_cwl_xenon_service.Cwl.Files.{File, file, get_files_from_binding}
use simple_cwl_xenon_service.JobStore.Table.{Row}
use simple_cwl_xenon_service.World.{
  Site, M, pure, lift, ◌>>=◌, ◌>>◌, unless, find_job, read, write, ask,
}
use Source.{
  Exchange, as_text, set_workflow_content, set_local_output, get_source_from_url, resolve_files,
  output_dir, publish_entry,
}

-- The parts of a File that destaging made, which has a name, a source and a text for its location.
abbrev pub published_name : File → Outcome String
published_name (file name index location source nested) = or_raise name type_error

abbrev pub published_location : File → Outcome String
published_location (file name index location source nested) = as_text location

abbrev pub published_source : File → Outcome FilePath
published_source (file name index location source nested) = or_raise source attribute_error

module _ (site : Site) (e : Exchange) where
  open e use {basedir, loads, dumps, hex}

  -- The log message reads the workflow's URL as well.
  unfoldable pub resolve_input : ℕ → M (List File)
  unfolding get_source_from_url resolve_files get_files_from_binding
  resolve_input job_id = do
    id ← find_job job_id
    read (λ r. r.workflow) id
    workflow ← read (λ r. r.workflow) id
    source ← lift (get_source_from_url e workflow)
    content ← ask site.text_reply (read_bytes source)
    write (set_workflow_content content) id
    local_input ← read (λ r. r.local_input) id
    inputs ← lift (loads local_input)
    files ← lift (get_files_from_binding inputs)
    lift (resolve_files e files)

  unfoldable pub create_output_dir : ℕ → M Unit
  create_output_dir id = ask site.done_reply (mkdir (output_dir e id) none false false)

  unfoldable pub delete_output_dir : ℕ → M Unit
  delete_output_dir id = do
    there ← ask site.test_reply (is_dir (output_dir e id))
    unless (not there) (ask site.done_reply (rmdir_recursive (output_dir e id)))

  -- The loop over the output files, with the output document as it is so far.
  unfoldable pub publish_files : ℕ → List File → Value → M Value
  unfolding publish_entry
  publish_files id [] output = pure output
  publish_files id (f ∷ fs) output = do
    location ← lift (published_location f)
    source ← lift (published_source f)
    ask site.done_reply (copy source (child (output_dir e id) location))
    name ← lift (published_name f)
    output' ← lift (publish_entry e id name location output)
    publish_files id fs output'

  abbrev publish_some : ℕ → ℕ → List File → M Unit
  publish_some job_id id files = do
    remote_output ← read (λ r. r.remote_output) id
    output ← lift (loads remote_output)
    create_output_dir job_id
    output' ← publish_files job_id files output
    write (set_local_output (dumps output')) id

  -- `if output_files != []`
  abbrev publish_if_any : ℕ → ℕ → List File → M Unit
  publish_if_any job_id id [] = pure tt
  publish_if_any job_id id (f ∷ fs) = publish_some job_id id (f ∷ fs)

  unfoldable pub publish_job_output : ℕ → List File → M Unit
  unfolding create_output_dir publish_files
  publish_job_output job_id files = do id ← find_job job_id; publish_if_any job_id id files
