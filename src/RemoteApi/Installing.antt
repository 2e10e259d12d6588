-- ===== src/RemoteApi/Installing.antt =====
-- Looking for updates and installing them move no job.
use simple_cwl_xenon_service.Prelude.{ℕ, zero, suc, String, Bool, true, false, List, [], ◌∷◌}
use simple_cwl_xenon_service.Exception.{Exn, ssh_exception}
use simple_cwl_xenon_service.FileSystem.{FilePath}
use simple_cwl_xenon_service.World.{Site, M, Command}
use simple_cwl_xenon_service.World.Quiet.{
  Quiet, Quiet-bind, Quiet-ask, Quiet-pure, Quiet-raise, Quiet-lift, Quiet-try, Quiet-if,
  Quiet-unless, quiet_rules,
}
use simple_cwl_xenon_service.RemoteApi.{
  Api, is_updatable, if_updatable, select_updatable, updatable_projects, update_available,
}
use simple_cwl_xenon_service.RemoteApi.Install.{
  on_ssh, run_command, remove_project, make_remote_project, copy_files, stage_api_files, stage_step,
  stage_steps_in, stage_steps_from, stage_api_steps, wait_until_there, make_executable,
  stage_install_script,
}
use simple_cwl_xenon_service.RemoteApi.Projects.{
  Retry, log_io_error, conclude_script, run_if_there, run_install_script, run_staged,
  install_project, go_on, install_projects, install,
}

-- Trying again does nothing but run the method again.
pub record Repeats (retry : Retry) : Type 0 where
  pub done : (m : M Unit) → Quiet m → Quiet (retry.done m)
  pub told : (m : M Bool) → Quiet m → Quiet (retry.told m)

module _ (site : Site) (api : Api) where
  is_updatable-Quiet : (name : String) → Quiet (is_updatable site api name)
  unfolding is_updatable
  is_updatable-Quiet name = search quiet_rules depth 16

  if_updatable-Quiet : (name : String) → Quiet (if_updatable site api name)
  if_updatable-Quiet name = search (quiet_rules, is_updatable-Quiet) depth 8

  select_updatable-Quiet : (names : List String) → Quiet (select_updatable site api names)
  unfolding select_updatable
  select_updatable-Quiet [] = Quiet-pure _
  select_updatable-Quiet (name ∷ names) =
      let rest = select_updatable-Quiet names in
      Quiet-bind _ _ (if_updatable-Quiet name) (λ here. Quiet-bind _ _ rest (λ more. Quiet-pure _))

  updatable_projects-Quiet : Quiet (updatable_projects site api)
  unfolding updatable_projects
  updatable_projects-Quiet = Quiet-bind _ _ (Quiet-ask _ _) select_updatable-Quiet

  pub update_available-Quiet : Quiet (update_available site api)
  unfolding update_available
  update_available-Quiet = Quiet-bind _ _ updatable_projects-Quiet (λ names. Quiet-pure _)

  run_command-Quiet : (job : Command) → Quiet (run_command site api job)
  run_command-Quiet job = search quiet_rules depth 8

  remove_project-Quiet :
      (there : Bool) (path : FilePath) → Quiet (remove_project site api there path)
  remove_project-Quiet false path = Quiet-pure tt
  remove_project-Quiet true path =
      Quiet-bind _ _ (run_command-Quiet _) (λ code. Quiet-unless _ _ (Quiet-raise _))

  make_remote_project-Quiet : (path : FilePath) → Quiet (make_remote_project site api path)
  unfolding make_remote_project
  make_remote_project-Quiet path =
      Quiet-bind _ _ (Quiet-ask _ _)
        λ there. Quiet-bind _ _ (remove_project-Quiet there path) (λ _. Quiet-ask _ _)

  on_ssh-Quiet : (again : M Unit) (e : Exn) → Quiet again → Quiet (on_ssh again e)
  on_ssh-Quiet again (ssh_exception arg) k = Quiet-bind _ _ (Quiet-lift _) (λ _. k)
  on_ssh-Quiet again e k = Quiet-raise e

  copy_files-Quiet :
      (tries : ℕ) (local_dir remote_dir : FilePath)
      → Quiet (copy_files site api tries local_dir remote_dir)
  unfolding copy_files
  copy_files-Quiet zero local_dir remote_dir = Quiet-pure tt
  copy_files-Quiet (suc tries) local_dir remote_dir =
      let again = copy_files-Quiet tries local_dir remote_dir in
      Quiet-try _ _ (Quiet-ask _ _) (λ e. on_ssh-Quiet _ e again)

  stage_api_files-Quiet :
      (local_dir remote_dir : FilePath) → Quiet (stage_api_files site api local_dir remote_dir)
  unfolding stage_api_files
  stage_api_files-Quiet local_dir remote_dir = search (quiet_rules, copy_files-Quiet) depth 8

  stage_step-Quiet :
      (local_dir remote_dir : FilePath) (rel_dir filename : String)
      → Quiet (stage_step site api local_dir remote_dir rel_dir filename)
  unfolding stage_step
  stage_step-Quiet local_dir remote_dir rel_dir filename = search quiet_rules depth 12

  stage_steps_in-Quiet :
      (local_dir remote_dir : FilePath) (rel_dir : String) (files : List String)
      → Quiet (stage_steps_in site api local_dir remote_dir rel_dir files)
  unfolding stage_steps_in
  stage_steps_in-Quiet local_dir remote_dir rel_dir [] = Quiet-pure tt
  stage_steps_in-Quiet local_dir remote_dir rel_dir (filename ∷ files) =
      let rest = stage_steps_in-Quiet local_dir remote_dir rel_dir files in
      Quiet-bind _ _ (Quiet-unless _ _ (stage_step-Quiet local_dir remote_dir rel_dir filename))
        (λ _. rest)

  stage_steps_from-Quiet :
      (local_dir remote_dir : FilePath) (dirs : List (String × List String))
      → Quiet (stage_steps_from site api local_dir remote_dir dirs)
  unfolding stage_steps_from
  stage_steps_from-Quiet local_dir remote_dir [] = Quiet-pure tt
  stage_steps_from-Quiet local_dir remote_dir ((rel_dir, files) ∷ dirs) =
      let rest = stage_steps_from-Quiet local_dir remote_dir dirs in
      Quiet-bind _ _ (stage_steps_in-Quiet local_dir remote_dir rel_dir files) (λ _. rest)

  stage_api_steps-Quiet :
      (local_dir remote_dir : FilePath) → Quiet (stage_api_steps site api local_dir remote_dir)
  unfolding stage_api_steps
  stage_api_steps-Quiet local_dir remote_dir =
      Quiet-bind _ _ (Quiet-ask _ _) (stage_steps_from-Quiet local_dir remote_dir)

  wait_until_there-Quiet :
      (fuel : ℕ) (path : FilePath) → Quiet (wait_until_there site api fuel path)
  unfolding wait_until_there
  wait_until_there-Quiet zero path = Quiet-pure false
  wait_until_there-Quiet (suc fuel) path =
      let again = wait_until_there-Quiet fuel path in
      Quiet-bind _ _ (Quiet-ask _ _) (λ there. Quiet-if there _ _ (Quiet-pure true) again)

  make_executable-Quiet : (path : FilePath) (b : Bool) → Quiet (make_executable site api path b)
  make_executable-Quiet path false = Quiet-pure false
  make_executable-Quiet path true = search quiet_rules depth 8

  stage_install_script-Quiet :
      (fuel : ℕ) (local_dir remote_dir : FilePath)
      → Quiet (stage_install_script site api fuel local_dir remote_dir)
  unfolding stage_install_script
  stage_install_script-Quiet fuel local_dir remote_dir = Quiet-bind _ _ (Quiet-ask _ _) λ there.
      Quiet-if there _ _
        (Quiet-bind _ _ (Quiet-ask _ _)
          λ _. Quiet-bind _ _ (wait_until_there-Quiet fuel _) (make_executable-Quiet _))
        (Quiet-pure true)

  module _ (retry : Retry) (repeats : Repeats retry) where
    conclude_script-Quiet :
        (b : Bool) (out err : FilePath) → Quiet (conclude_script site api retry b out err)
    conclude_script-Quiet true out err = search quiet_rules depth 8
    conclude_script-Quiet false out err = search quiet_rules depth 8

    run_if_there-Quiet : (b : Bool) (dir : FilePath) → Quiet (run_if_there site api retry b dir)
    run_if_there-Quiet false dir = Quiet-pure tt
    run_if_there-Quiet true dir =
        Quiet-bind _ _ (run_command-Quiet _) (λ code. conclude_script-Quiet _ _ _)

    run_install_script-Quiet : (dir : FilePath) → Quiet (run_install_script site api retry dir)
    unfolding run_install_script
    run_install_script-Quiet dir =
        Quiet-bind _ _ (Quiet-ask _ _) (λ there. run_if_there-Quiet there dir)

    run_staged-Quiet : (dir : FilePath) (b : Bool) → Quiet (run_staged site api retry dir b)
    run_staged-Quiet dir false = Quiet-pure false
    run_staged-Quiet dir true =
        Quiet-bind _ _ (repeats.done _ (run_install_script-Quiet dir)) (λ _. Quiet-pure true)

    install_project-Quiet :
        (fuel : ℕ) (name : String) → Quiet (install_project site api retry fuel name)
    unfolding install_project
    install_project-Quiet fuel name =
        Quiet-bind _ _ (repeats.done _ (make_remote_project-Quiet _)) λ _.
          Quiet-bind _ _ (repeats.done _ (stage_api_files-Quiet _ _)) λ _.
            Quiet-bind _ _ (repeats.done _ (stage_api_steps-Quiet _ _)) λ _.
              Quiet-bind _ _ (repeats.told _ (stage_install_script-Quiet fuel _ _))
                (run_staged-Quiet _)

    go_on-Quiet : (b : Bool) (rest : M Bool) → Quiet rest → Quiet (go_on site api retry b rest)
    go_on-Quiet false rest k = Quiet-pure false
    go_on-Quiet true rest k = k

    install_projects-Quiet :
        (fuel : ℕ) (names : List String) → Quiet (install_projects site api retry fuel names)
    unfolding install_projects
    install_projects-Quiet fuel [] = Quiet-pure true
    install_projects-Quiet fuel (name ∷ names) =
        let rest = install_projects-Quiet fuel names in
        Quiet-bind _ _ (install_project-Quiet fuel name) (λ b. go_on-Quiet b _ rest)

    log_io_error-Quiet : (e : Exn) → Quiet (log_io_error e)
    log_io_error-Quiet e = Quiet-if _ _ _ (Quiet-pure true) (Quiet-raise e)

    pub install-Quiet : (fuel : ℕ) → Quiet (install site api retry fuel)
    unfolding install
    install-Quiet fuel =
        Quiet-try _ _ (Quiet-bind _ _ updatable_projects-Quiet (install_projects-Quiet fuel))
          log_io_error-Quiet
