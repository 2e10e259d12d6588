-- ===== src/RemoteApi/Install.antt =====
-- The methods that copy a project of the API to the compute resource.
use simple_cwl_xenon_service.Prelude.{
  ℕ, zero, suc, String, Bool, true, false, not, none, some, List, [], ◌∷◌, ◌==◌, if◌then◌else◌,
}
use simple_cwl_xenon_service.Prelude.Int.{ℤ, pos, negsuc}
use simple_cwl_xenon_service.Exception.{Exn, ssh_exception, runtime_error, first_arg}
use simple_cwl_xenon_service.FileSystem.{
  FilePath, child, mkdir, exists, read_text, write_text, copy_always, walk, chmod,
}
use simple_cwl_xenon_service.Text.{ends_with}
use simple_cwl_xenon_service.World.{
  Site, M, Command, pure, raise, lift, ◌>>=◌, ◌>>◌, unless, try_except, ask, sched_submit_command,
  sched_wait,
}
use simple_cwl_xenon_service.RemoteApi.{Api}
use simple_cwl_xenon_service.RemoteApi.Translate.{translate_api_step}

abbrev pub is_zero : ℤ → Bool
is_zero (pos n) = n == 0
is_zero (negsuc n) = false

-- The handler of the copying loop: it reads `e.args[0]` for the log.
abbrev pub on_ssh : M Unit → Exn → M Unit
on_ssh again (ssh_exception arg) = lift (first_arg (ssh_exception arg)) >> again
on_ssh again e = raise e

module _ (site : Site) (api : Api) where
  open api use {local_api_dir, remote_api_dir, safe_load, dumps, show_path}

  abbrev pub run_command : Command → M ℤ
  run_command job = do job_id ← sched_submit_command site job; sched_wait site job_id

  abbrev remove_command : FilePath → Command
  remove_command path = record {
    command = "rm";
    arguments = "-r" ∷ "-f" ∷ show_path path ∷ [];
    environment = [];
    stdout_file = none;
    stderr_file = none;
  }

  abbrev pub remove_project : Bool → FilePath → M Unit
  remove_project false path = pure tt
  remove_project true path = do
    exit_code ← run_command (remove_command path)
    unless (is_zero exit_code) (raise runtime_error)

  unfoldable pub make_remote_project : FilePath → M Unit
  make_remote_project remote_project_dir = do
    there ← ask site.test_reply (exists remote_project_dir)
    remove_project there remote_project_dir
    ask site.done_reply (mkdir remote_project_dir (some 448) false false)

  -- The loop that copies the directory `files`, with the tries that are left. After the last one it ends
  -- without an error.
  unfoldable pub copy_files : ℕ → FilePath → FilePath → M Unit
  copy_files zero local_dir remote_dir = pure tt
  copy_files (suc tries) local_dir remote_dir =
      try_except (ask site.done_reply (copy_always local_dir remote_dir false true))
        (on_ssh (copy_files tries local_dir remote_dir))

  unfoldable pub stage_api_files : FilePath → FilePath → M Unit
  unfolding copy_files
  stage_api_files local_project_dir remote_project_dir = do
    ask site.done_reply (
        copy_always (child local_project_dir "version") (child remote_project_dir "version") true
          false)
    there ← ask site.test_reply (exists (child local_project_dir "files"))
    if there
        then copy_files 10 (child local_project_dir "files") (child remote_project_dir "files")
        else pure tt

  -- `rel_dir` is the directory relative to `steps`.
  unfoldable pub stage_step : FilePath → FilePath → String → String → M Unit
  unfolding translate_api_step
  stage_step local_project_dir remote_project_dir rel_dir filename = do
    let this_dir = child (child local_project_dir "steps") rel_dir
    let remote_this_dir = child (child remote_project_dir "steps") rel_dir
    content ← ask site.text_reply (read_text (child this_dir filename))
    cwlfile ← lift (safe_load content)
    cwlfile' ← lift (translate_api_step (show_path (child remote_project_dir "files")) cwlfile)
    ask site.done_reply (mkdir remote_this_dir (some 448) true true)
    ask site.done_reply (write_text (child remote_this_dir filename) (dumps cwlfile'))

  unfoldable pub stage_steps_in : FilePath → FilePath → String → List String → M Unit
  unfolding stage_step ends_with
  stage_steps_in local_project_dir remote_project_dir rel_dir [] = pure tt
  stage_steps_in local_project_dir remote_project_dir rel_dir (filename ∷ files) = do
    unless (not (ends_with filename ".cwl"))
        (stage_step local_project_dir remote_project_dir rel_dir filename)
    stage_steps_in local_project_dir remote_project_dir rel_dir files

  unfoldable pub stage_steps_from : FilePath → FilePath → List (String × List String) → M Unit
  unfolding stage_steps_in
  stage_steps_from local_project_dir remote_project_dir [] = pure tt
  stage_steps_from local_project_dir remote_project_dir ((rel_dir, files) ∷ dirs) = do
    stage_steps_in local_project_dir remote_project_dir rel_dir files
    stage_steps_from local_project_dir remote_project_dir dirs

  unfoldable pub stage_api_steps : FilePath → FilePath → M Unit
  unfolding stage_steps_from
  stage_api_steps local_project_dir remote_project_dir = do
    dirs ← ask site.walk_reply (walk (child local_project_dir "steps"))
    stage_steps_from local_project_dir remote_project_dir dirs

  -- `while not remote_path.exists()`, with as many looks as there is fuel: false if the path was not
  -- there at any of them.
  unfoldable pub wait_until_there : ℕ → FilePath → M Bool
  wait_until_there zero remote_path = pure false
  wait_until_there (suc fuel) remote_path = do
    let again = wait_until_there fuel remote_path
    there ← ask site.test_reply (exists remote_path)
    if there then pure true else again

  abbrev pub make_executable : FilePath → Bool → M Bool
  make_executable remote_path false = pure false
  make_executable remote_path true = do ask site.done_reply (chmod remote_path 448); pure true

  abbrev pub copy_script : ℕ → FilePath → FilePath → M Bool
  copy_script fuel local_path remote_path = do
    ask site.done_reply (copy_always local_path remote_path false false)
    there ← wait_until_there fuel remote_path
    make_executable remote_path there

  unfoldable pub stage_install_script : ℕ → FilePath → FilePath → M Bool
  unfolding wait_until_there
  stage_install_script fuel local_project_dir remote_project_dir = do
    there ← ask site.test_reply (exists (child local_project_dir "install.sh"))
    if there
        then copy_script fuel (child local_project_dir "install.sh")
            (child remote_project_dir "install.sh")
        else pure true
