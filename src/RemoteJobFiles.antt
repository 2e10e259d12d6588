-- ===== src/RemoteJobFiles.antt =====
-- cerise/back_end/remote_job_files.py: the class RemoteJobFiles, which copies the files of a job to
-- the compute resource and back. A mutation of the input document is a new document here.
pub mod Names
pub mod Laws
pub mod Bounds
pub mod Unique
pub mod Destaging
use Prim.Native.String.{◌++◌, count}
use text.Mathlib.Text.{starts_with, ◌==◌ as str_eq}
use simple_cwl_xenon_service.Prelude.{
  ℕ, suc, ◌+◌, String, Bool, true, false, not, Option, none, some, List, [], ◌∷◌, ◌==◌,
  if◌then◌else◌, length, drop_list,
}
use simple_cwl_xenon_service.Exception.{
  Exn, Outcome, ok, raised, or_raise, type_error, attribute_error, plain_exception, file_not_found,
}
use simple_cwl_xenon_service.Exception
use simple_cwl_xenon_service.FileSystem.{
  FilePath, child, mkdir, rmdir_recursive, exists, read_bytes, write_bytes, copy,
}
use simple_cwl_xenon_service.Text.{drop, splitlines, decimal, zfill2, is_empty}
use simple_cwl_xenon_service.Value.{Value, str, get_item, set_item, get_index, set_index}
use simple_cwl_xenon_service.Cwl.Files.{
  File, file, Files, no_files, add_file, get_files_from_binding,
}
use simple_cwl_xenon_service.JobStore.{level_debug, level_info}
use simple_cwl_xenon_service.JobStore.Table.{Row}
use simple_cwl_xenon_service.World.{
  Site, M, pure, raise, lift, ◌>>=◌, ◌>>◌, unless, try_except, find_job, read, write, log, ask,
}
use Names.{create_input_filename}

-- The fields of a RemoteJobFiles object, and the library functions that it calls.
pub record Remote : Type 0 where
  pub basedir : FilePath
  pub loads : String → Outcome Value
  pub dumps : Value → String
  pub hex : ℕ → String
  pub show_path : FilePath → String

abbrev pub set_remote_workdir_path : String → Row → Row
set_remote_workdir_path path r = record r { remote_workdir_path = path }

abbrev pub set_remote_workflow_path : String → Row → Row
set_remote_workflow_path path r = record r { remote_workflow_path = path }

abbrev pub set_remote_input_path : String → Row → Row
set_remote_input_path path r = record r { remote_input_path = path }

abbrev pub set_remote_stdout_path : String → Row → Row
set_remote_stdout_path path r = record r { remote_stdout_path = path }

abbrev pub set_remote_stderr_path : String → Row → Row
set_remote_stderr_path path r = record r { remote_stderr_path = path }

abbrev pub set_remote_system_out_path : String → Row → Row
set_remote_system_out_path path r = record r { remote_system_out_path = path }

abbrev pub set_remote_system_err_path : String → Row → Row
set_remote_system_err_path path r = record r { remote_system_err_path = path }

abbrev pub set_remote_output : String → Row → Row
set_remote_output output r = record r { remote_output = output }

abbrev pub set_remote_error : String → Row → Row
set_remote_error error r = record r { remote_error = error }

-- A location or the name of an input that is used as a text.
abbrev pub as_text : Value → Outcome String
as_text (str s) = ok s
as_text _ = raised type_error

-- `inputs[name][index]`, or `inputs[name]` without an index.
abbrev pub select_input : Option ℕ → Value → Outcome Value
select_input none entry = ok entry
select_input (some i) entry = get_index i entry

abbrev pub replace_input : Option ℕ → Value → Value → Value
replace_input none desc entry = desc
replace_input (some i) desc entry = set_index i desc entry

-- The handler of `_read_remote_file`
abbrev pub empty_if_missing : Exn → M String
empty_if_missing (file_not_found m a) = pure ""
empty_if_missing e = raise e

module _ (site : Site) (remote : Remote) where
  open remote use {basedir, loads, dumps, hex, show_path}

  abbrev pub job_dir : ℕ → FilePath
  job_dir id = child (child basedir "jobs") (hex id)

  abbrev pub abs_path : ℕ → String → FilePath
  abs_path id rel_path = if str_eq rel_path "" then job_dir id else child (job_dir id) rel_path

  unfoldable pub add_file_to_job : ℕ → String → String → M Unit
  add_file_to_job id rel_path content =
      ask site.done_reply (write_bytes (abs_path id rel_path) content)

  unfoldable pub read_remote_file : ℕ → String → M String
  read_remote_file id rel_path =
      try_except (ask site.text_reply (read_bytes (abs_path id rel_path))) empty_if_missing

  -- The result is the next count and the description with its new locations.
  unfoldable mutual
    unfolding create_input_filename

    pub stage_input_file : ℕ → ℕ → File → Value → M (ℕ × Value)
    stage_input_file count id (file name index location source nested) desc = do
      url ← lift (as_text location)
      let staged_name = create_input_filename (zfill2 (decimal count)) url
      job ← find_job id
      log site job level_info (("Staging input file " ++ url) ∷ [])
      from ← lift (or_raise source attribute_error)
      ask site.done_reply (copy from (abs_path id ("work/" ++ staged_name)))
      desc' ←
          lift (set_item "location" (str (show_path (abs_path id ("work/" ++ staged_name)))) desc)
      stage_secondary (count + 1) id 0 nested desc'

    -- The loop over the secondary files, from the index `i` on.
    pub stage_secondary : ℕ → ℕ → ℕ → Files → Value → M (ℕ × Value)
    stage_secondary count id i no_files desc = pure (count, desc)
    stage_secondary count id i (add_file f fs) desc = do
      descs ← lift (get_item "secondaryFiles" desc)
      sec_desc ← lift (get_index i descs)
      staged ← stage_input_file count id f sec_desc
      desc' ← lift (set_item "secondaryFiles" (set_index i staged.1 descs) desc)
      stage_secondary staged.0 id (suc i) fs desc'

  abbrev file_name : File → Outcome String
  file_name (file name index location source nested) = or_raise name type_error

  abbrev file_index : File → Option ℕ
  file_index (file name index location source nested) = index

  -- The loop over the input files, with the input document as it is so far.
  unfoldable pub stage_files : ℕ → ℕ → List File → Value → M Value
  unfolding stage_input_file
  stage_files count id [] inputs = pure inputs
  stage_files count id (f ∷ fs) inputs = do
    name ← lift (file_name f)
    entry ← lift (get_item name inputs)
    desc ← lift (select_input (file_index f) entry)
    staged ← stage_input_file count id f desc
    inputs' ← lift (set_item name (replace_input (file_index f) staged.1 entry) inputs)
    stage_files staged.0 id fs inputs'

  -- What `stage_job` writes last: where the runner will find and leave its files.
  unfoldable pub configure_output : ℕ → ℕ → M Unit
  configure_output job_id id = do
    write (set_remote_stdout_path (show_path (abs_path job_id "stdout.txt"))) id
    write (set_remote_stderr_path (show_path (abs_path job_id "stderr.txt"))) id
    write (set_remote_system_out_path (show_path (abs_path job_id "sysout.txt"))) id
    write (set_remote_system_err_path (show_path (abs_path job_id "syserr.txt"))) id

  unfoldable pub stage_input : ℕ → ℕ → List File → M Unit
  unfolding stage_files add_file_to_job
  stage_input job_id id input_files = do
    local_input ← read (λ r. r.local_input) id
    inputs ← lift (loads local_input)
    inputs' ← stage_files 1 job_id input_files inputs
    add_file_to_job job_id "input.json" (dumps inputs')
    write (set_remote_input_path (show_path (abs_path job_id "input.json"))) id

  unfoldable pub stage_job : ℕ → List File → String → M Unit
  unfolding stage_input configure_output add_file_to_job
  stage_job job_id input_files workflow_content = do
    id ← find_job job_id
    ask site.done_reply (mkdir (abs_path job_id "") (some 448) true true)
    ask site.done_reply (mkdir (abs_path job_id "work") (some 448) true true)
    write (set_remote_workdir_path (show_path (abs_path job_id "work"))) id
    name ← read (λ r. r.name) id
    add_file_to_job job_id "name.txt" name
    add_file_to_job job_id "workflow.cwl" workflow_content
    write (set_remote_workflow_path (show_path (abs_path job_id "workflow.cwl"))) id
    stage_input job_id id input_files
    configure_output job_id id

  abbrev pub work_dir : ℕ → FilePath
  work_dir id = child (job_dir id) "work"

  abbrev pub output_prefix : ℕ → String
  output_prefix id = "file://" ++ (show_path (work_dir id) ++ "/")

  -- A round of the loop of `destage_job_output`: the location becomes relative to the work directory.
  unfoldable pub destage_file : ℕ → File → Outcome File
  unfolding drop
  destage_file id (file name index location source nested) = elim (as_text location) [
    | raised e ↦ raised attribute_error
    | ok url ↦
        let rel = drop (count (output_prefix id)) url in
        if starts_with url (output_prefix id)
        then ok (file name index (str rel) (some (child (work_dir id) rel)) nested)
        else raised plain_exception
  ]

  unfoldable pub destage_files : ℕ → List File → Outcome (List File)
  unfolding destage_file
  destage_files id [] = ok []
  destage_files id (f ∷ fs) =
      Exception.◌>>=◌ (destage_file id f)
        (λ f'. Exception.◌>>=◌ (destage_files id fs) (λ fs'. ok (f' ∷ fs')))

  abbrev destage_some : ℕ → ℕ → M (List File)
  destage_some job_id id = do
    remote_output ← read (λ r. r.remote_output) id
    outputs ← lift (loads remote_output)
    files ← lift (get_files_from_binding outputs)
    lift (destage_files job_id files)

  -- The message of the log reads the output first.
  unfoldable pub destage_job_output : ℕ → M (List File)
  unfolding destage_files get_files_from_binding
  destage_job_output job_id = do
    id ← find_job job_id
    read (λ r. r.remote_output) id
    remote_output ← read (λ r. r.remote_output) id
    if str_eq remote_output "" then pure [] else destage_some job_id id

  unfoldable pub delete_job : ℕ → M Unit
  delete_job id = do
    there ← ask site.test_reply (exists (abs_path id ""))
    unless (not there) (ask site.done_reply (rmdir_recursive (abs_path id "")))

  -- The new lines of the runner's log go to the job's log.
  unfoldable pub update_log : ℕ → String → M Unit
  unfolding splitlines
  update_log id content = do
    remote_error ← read (λ r. r.remote_error) id
    log site id level_debug (drop_list (length (splitlines remote_error)) (splitlines content))
    write (set_remote_error content) id

  unfoldable pub update_job : ℕ → M Unit
  unfolding read_remote_file update_log
  update_job job_id = do
    id ← find_job job_id
    output ← read_remote_file job_id "stdout.txt"
    unless (is_empty output) (write (set_remote_output output) id)
    content ← read_remote_file job_id "stderr.txt"
    unless (is_empty content) (update_log id content)
