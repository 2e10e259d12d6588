-- ===== src/RemoteJobFiles/Laws.antt =====
-- RemoteJobFiles moves no job, and its deletion leaves the variable `previous_state` of `_process_jobs`
-- alone.
use simple_cwl_xenon_service.Prelude.{ℕ, suc, ◌+◌, String, List, [], ◌∷◌, refl}
use simple_cwl_xenon_service.Exception.{Exn, file_not_found}
use simple_cwl_xenon_service.Value.{Value}
use simple_cwl_xenon_service.Cwl.Files.{File, file, Files, no_files, add_file}
use simple_cwl_xenon_service.World.{Site}
use simple_cwl_xenon_service.World.Quiet.{Quiet, Ordinary, quiet_rules}
use simple_cwl_xenon_service.World.Frame.{Framed, frame_rules}
use simple_cwl_xenon_service.RemoteJobFiles.{
  Remote, set_remote_workdir_path, set_remote_workflow_path, set_remote_input_path,
  set_remote_stdout_path, set_remote_stderr_path, set_remote_system_out_path,
  set_remote_system_err_path, set_remote_output, set_remote_error, empty_if_missing,
  read_remote_file, stage_input_file, stage_secondary, stage_files, configure_output, stage_input,
  stage_job, destage_job_output, delete_job, update_log, update_job,
}

set_remote_workdir_path-Ordinary : (value : String) → Ordinary (set_remote_workdir_path value)
set_remote_workdir_path-Ordinary value = record {
  keeps_id = λ r. refl;
  keeps_state = λ r. refl;
  keeps_request = λ r. refl;
}

set_remote_workflow_path-Ordinary : (value : String) → Ordinary (set_remote_workflow_path value)
set_remote_workflow_path-Ordinary value = record {
  keeps_id = λ r. refl;
  keeps_state = λ r. refl;
  keeps_request = λ r. refl;
}

set_remote_input_path-Ordinary : (value : String) → Ordinary (set_remote_input_path value)
set_remote_input_path-Ordinary value = record {
  keeps_id = λ r. refl;
  keeps_state = λ r. refl;
  keeps_request = λ r. refl;
}

set_remote_stdout_path-Ordinary : (value : String) → Ordinary (set_remote_stdout_path value)
set_remote_stdout_path-Ordinary value = record {
  keeps_id = λ r. refl;
  keeps_state = λ r. refl;
  keeps_request = λ r. refl;
}

set_remote_stderr_path-Ordinary : (value : String) → Ordinary (set_remote_stderr_path value)
set_remote_stderr_path-Ordinary value = record {
  keeps_id = λ r. refl;
  keeps_state = λ r. refl;
  keeps_request = λ r. refl;
}

set_remote_system_out_path-Ordinary : (value : String) → Ordinary (set_remote_system_out_path value)
set_remote_system_out_path-Ordinary value = record {
  keeps_id = λ r. refl;
  keeps_state = λ r. refl;
  keeps_request = λ r. refl;
}

set_remote_system_err_path-Ordinary : (value : String) → Ordinary (set_remote_system_err_path value)
set_remote_system_err_path-Ordinary value = record {
  keeps_id = λ r. refl;
  keeps_state = λ r. refl;
  keeps_request = λ r. refl;
}

set_remote_output-Ordinary : (value : String) → Ordinary (set_remote_output value)
set_remote_output-Ordinary value = record {
  keeps_id = λ r. refl;
  keeps_state = λ r. refl;
  keeps_request = λ r. refl;
}

set_remote_error-Ordinary : (value : String) → Ordinary (set_remote_error value)
set_remote_error-Ordinary value = record {
  keeps_id = λ r. refl;
  keeps_state = λ r. refl;
  keeps_request = λ r. refl;
}

ruleset column_rules = (
  set_remote_workdir_path-Ordinary, set_remote_workflow_path-Ordinary,
  set_remote_input_path-Ordinary, set_remote_stdout_path-Ordinary, set_remote_stderr_path-Ordinary,
  set_remote_system_out_path-Ordinary, set_remote_system_err_path-Ordinary,
  set_remote_output-Ordinary, set_remote_error-Ordinary,
)

empty_if_missing-Quiet : (e : Exn) → Quiet (empty_if_missing e)
empty_if_missing-Quiet (file_not_found m a) = search quiet_rules
empty_if_missing-Quiet e = search quiet_rules

module _ (site : Site) (remote : Remote) where
  read_remote_file-Quiet :
      (id : ℕ) (rel_path : String) → Quiet (read_remote_file site remote id rel_path)
  unfolding read_remote_file
  read_remote_file-Quiet id rel_path = search (quiet_rules, empty_if_missing-Quiet)

  mutual
    unfolding stage_input_file

    stage_input_file-Quiet :
        (count id : ℕ) (f : File) (desc : Value)
        → Quiet (stage_input_file site remote count id f desc)
    stage_input_file-Quiet count id (file name index location source nested) desc =
        let rest = λ (desc' : Value). stage_secondary-Quiet (count + 1) id 0 nested desc' in
        search (quiet_rules, rest) depth 20

    stage_secondary-Quiet :
        (count id i : ℕ) (fs : Files) (desc : Value)
        → Quiet (stage_secondary site remote count id i fs desc)
    stage_secondary-Quiet count id i no_files desc = search quiet_rules
    stage_secondary-Quiet count id i (add_file f fs) desc =
        let here = λ (d : Value). stage_input_file-Quiet count id f d in
        let rest = λ (n : ℕ) (d : Value). stage_secondary-Quiet n id (suc i) fs d in
        search (quiet_rules, here, rest) depth 20

  stage_files-Quiet :
      (count id : ℕ) (fs : List File) (inputs : Value)
      → Quiet (stage_files site remote count id fs inputs)
  unfolding stage_files
  stage_files-Quiet count id [] inputs = search quiet_rules
  stage_files-Quiet count id (f ∷ fs) inputs =
      let rest = λ (n : ℕ) (d : Value). stage_files-Quiet n id fs d in
      search (quiet_rules, stage_input_file-Quiet, rest) depth 20

  configure_output-Quiet : (job_id id : ℕ) → Quiet (configure_output site remote job_id id)
  unfolding configure_output
  configure_output-Quiet job_id id = search (quiet_rules, column_rules) depth 20

  stage_input-Quiet :
      (job_id id : ℕ) (fs : List File) → Quiet (stage_input site remote job_id id fs)
  unfolding stage_input
  stage_input-Quiet job_id id fs = search (quiet_rules, column_rules, stage_files-Quiet) depth 20

  pub stage_job-Quiet :
      (id : ℕ) (fs : List File) (workflow : String) → Quiet (stage_job site remote id fs workflow)
  unfolding stage_job
  stage_job-Quiet id fs workflow =
      search (quiet_rules, column_rules, stage_input-Quiet, configure_output-Quiet) depth 30

  pub destage_job_output-Quiet : (id : ℕ) → Quiet (destage_job_output site remote id)
  unfolding destage_job_output
  destage_job_output-Quiet id = search quiet_rules depth 20

  pub delete_job-Quiet : (id : ℕ) → Quiet (delete_job site remote id)
  unfolding delete_job
  delete_job-Quiet id = search quiet_rules depth 8

  pub delete_job-Framed : (id : ℕ) → Framed (delete_job site remote id)
  unfolding delete_job
  delete_job-Framed id = search frame_rules depth 8

  update_log-Quiet : (id : ℕ) (content : String) → Quiet (update_log site remote id content)
  unfolding update_log
  update_log-Quiet id content = search (quiet_rules, column_rules) depth 10

  pub update_job-Quiet : (id : ℕ) → Quiet (update_job site remote id)
  unfolding update_job
  update_job-Quiet id =
      search (quiet_rules, column_rules, read_remote_file-Quiet, update_log-Quiet) depth 20
