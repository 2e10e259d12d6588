-- ===== src/RemoteApi/Projects.antt =====
-- `install`: the projects that are out of date are copied to the compute resource, where their scripts
-- run. A copy is ended when its script is there, which is asked again and again; a result is false if it
-- was not there at any of the looks that the fuel allows.
use simple_cwl_xenon_service.Prelude.{
  ℕ, String, Bool, true, false, some, List, [], ◌∷◌, if◌then◌else◌,
}
use simple_cwl_xenon_service.Exception.{Exn, runtime_error, is_os_error}
use simple_cwl_xenon_service.FileSystem.{FilePath, child, exists, read_text, unlink}
use simple_cwl_xenon_service.World.{Site, M, Command, pure, raise, ◌>>=◌, ◌>>◌, try_except, ask}
use simple_cwl_xenon_service.RemoteApi.{Api, updatable_projects}
use simple_cwl_xenon_service.RemoteApi.Install.{
  is_zero, run_command, make_remote_project, stage_api_files, stage_api_steps, stage_install_script,
}

-- The decorator `retry` of the package `retrying`, on methods that return nothing and on the one that
-- tells whether it has come to its end: up to ten attempts while SSHException is raised.
pub record Retry : Type 0 where
  pub done : M Unit → M Unit
  pub told : M Bool → M Bool

-- `except IOError`
abbrev pub log_io_error : Exn → M Bool
log_io_error e = if is_os_error e then pure true else raise e

module _ (site : Site) (api : Api) (retry : Retry) where
  open api use {local_api_dir, remote_api_dir, show_path}

  abbrev pub script_command : FilePath → Command
  script_command remote_project_dir = record {
    command = show_path (child remote_project_dir "install.sh");
    arguments = show_path (child remote_project_dir "files") ∷ [];
    environment = ("CERISE_PROJECT_FILES", show_path (child remote_project_dir "files")) ∷ [];
    stdout_file = some (show_path (child remote_project_dir ".cerise_install.out"));
    stderr_file = some (show_path (child remote_project_dir ".cerise_install.err"));
  }

  -- After a script that failed its outputs are read for the log, and else they are removed.
  abbrev pub conclude_script : Bool → FilePath → FilePath → M Unit
  conclude_script true remote_stdout remote_stderr = do
    ask site.done_reply (unlink remote_stdout)
    ask site.done_reply (unlink remote_stderr)
  conclude_script false remote_stdout remote_stderr = do
    output ← ask site.text_reply (read_text remote_stdout)
    errors ← ask site.text_reply (read_text remote_stderr)
    raise runtime_error

  abbrev pub run_if_there : Bool → FilePath → M Unit
  run_if_there false remote_project_dir = pure tt
  run_if_there true remote_project_dir = do
    exit_code ← run_command site api (script_command remote_project_dir)
    conclude_script (is_zero exit_code) (child remote_project_dir ".cerise_install.out")
        (child remote_project_dir ".cerise_install.err")

  unfoldable pub run_install_script : FilePath → M Unit
  run_install_script remote_project_dir = do
    there ← ask site.test_reply (exists (child remote_project_dir "install.sh"))
    run_if_there there remote_project_dir

  abbrev pub run_staged : FilePath → Bool → M Bool
  run_staged remote_project_dir false = pure false
  run_staged remote_project_dir true = do
    retry.done (run_install_script remote_project_dir)
    pure true

  unfoldable pub install_project : ℕ → String → M Bool
  unfolding make_remote_project stage_api_files stage_api_steps stage_install_script
      run_install_script
  install_project fuel name = do
    let local_project_dir = child local_api_dir name
    let remote_project_dir = child remote_api_dir name
    retry.done (make_remote_project site api remote_project_dir)
    retry.done (stage_api_files site api local_project_dir remote_project_dir)
    retry.done (stage_api_steps site api local_project_dir remote_project_dir)
    staged ← retry.told (stage_install_script site api fuel local_project_dir remote_project_dir)
    run_staged remote_project_dir staged

  -- The loop over the projects, which goes no further than a copy that is not ended.
  abbrev pub go_on : Bool → M Bool → M Bool
  go_on false rest = pure false
  go_on true rest = rest

  unfoldable pub install_projects : ℕ → List String → M Bool
  unfolding install_project
  install_projects fuel [] = pure true
  install_projects fuel (name ∷ names) = do
    let rest = install_projects fuel names
    installed ← install_project fuel name
    go_on installed rest

  unfoldable pub install : ℕ → M Bool
  unfolding updatable_projects install_projects
  install fuel = try_except (updatable_projects site api >>= install_projects fuel) log_io_error
