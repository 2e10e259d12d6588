-- ===== src/ExecutionManager/Methods.antt =====
-- The methods that handle one job keep every invariant that their steps on that job keep.
use simple_cwl_xenon_service.Prelude.{
  ℕ, ◌≡◌, refl, arith, String, Bool, true, false, Option, none, some, List, [], ◌∷◌,
}
use simple_cwl_xenon_service.Exception.{Exn, file_not_found, value_error, invalid_job}
use simple_cwl_xenon_service.JobState.{
  JobState, waiting, running, finished, staging_out, waiting_cr, running_cr, cancelled,
  system_error, permanent_failure,
}
use simple_cwl_xenon_service.JobStore.Table.{Row}
use simple_cwl_xenon_service.Cwl.{get_cwltool_result}
use simple_cwl_xenon_service.Cwl.Files.{File}
use simple_cwl_xenon_service.World.{
  World, JobStatus, log, read, find_job, write_state, attempt, remove, sched_get_status,
}
use simple_cwl_xenon_service.World.Quiet.{
  Quiet-find_job, Quiet-read, Quiet-log, Quiet-sched_get_status,
}
use simple_cwl_xenon_service.World.Keeps.{
  Keeps, Steps, staged_in, Keeps-bind, Keeps-find_job, keeps_rules,
}
use simple_cwl_xenon_service.JobRunner.{
  start_job, cancel_job, follow_running, follow_done, follow, update_job,
}
use simple_cwl_xenon_service.JobRunner.Laws.{start_job-Quiet, cancel_job-Quiet}
use simple_cwl_xenon_service.ExecutionManager.Interface.{Backend, AreQuiet}
use simple_cwl_xenon_service.ExecutionManager.{
  fail_permanently, input_handler, log_versions, conclude_start, start_staged, staging_handler,
  stage_files, stage_planned, planning_handler, plan, plan_and_stage, unless_cancelled,
  check_valid_and_stage, check_and_stage, resolve, resolved_then, stage_and_start_job, cancel,
  conclude_destaging, destage_owned, destage_job, delete,
}

staged_in-waiting : staged_in waiting ≡ true
unfolding staged_in
staged_in-waiting = refl

staged_in-running : staged_in running ≡ true
unfolding staged_in
staged_in-running = refl

pub staged_in-finished : staged_in finished ≡ true
unfolding staged_in
staged_in-finished = refl

staged_in-staging_out : staged_in staging_out ≡ true
unfolding staged_in
staged_in-staging_out = refl

staged_in-waiting_cr : staged_in waiting_cr ≡ true
unfolding staged_in
staged_in-waiting_cr = refl

staged_in-running_cr : staged_in running_cr ≡ true
unfolding staged_in
staged_in-running_cr = refl

staged_in-cancelled : staged_in cancelled ≡ true
unfolding staged_in
staged_in-cancelled = refl

staged_in-system_error : staged_in system_error ≡ true
unfolding staged_in
staged_in-system_error = refl

staged_in-permanent_failure : staged_in permanent_failure ≡ true
unfolding staged_in
staged_in-permanent_failure = refl

result-staged_in : (cwltool_log : String) → staged_in (get_cwltool_result cwltool_log) ≡ true
unfolding staged_in get_cwltool_result
result-staged_in cwltool_log = ground arith

module _ (I : World → Type 0) (id : ℕ) (backend : Backend) (quiet : AreQuiet backend.services)
    (steps : Steps I id) where
  open backend use {site, runner, services}
  open steps use {of_quiet}

  pub log-Keeps : (j level : ℕ) (message : List String) → Keeps I (log site j level message)
  log-Keeps j level message = of_quiet (Quiet-log site j level message)

  pub read-Keeps : {A : Type 0} (column : Row → A) (j : ℕ) → Keeps I (read column j)
  read-Keeps column j = of_quiet (Quiet-read column j)

  pub find_job-Keeps : (j : ℕ) → Keeps I (find_job j)
  find_job-Keeps j = of_quiet (Quiet-find_job j)

  get_status-Keeps : (remote_id : Option String) → Keeps I (sched_get_status site remote_id)
  get_status-Keeps remote_id = of_quiet (Quiet-sched_get_status site remote_id)

  pub cancel_job-Keeps : (j : ℕ) → Keeps I (cancel_job site j)
  cancel_job-Keeps j = of_quiet (cancel_job-Quiet site j)

  pub write_state-Keeps :
      (state : JobState) → staged_in state ≡ true → Keeps I (write_state state id)
  write_state-Keeps = steps.of_write_state

  pub attempt-Keeps : (from to : JobState) → staged_in to ≡ true → Keeps I (attempt from to id)
  attempt-Keeps = steps.of_attempt

  ruleset step_rules = (
    keeps_rules, log-Keeps, read-Keeps, write_state-Keeps, attempt-Keeps, staged_in-waiting,
    staged_in-running, staged_in-finished, staged_in-staging_out, staged_in-waiting_cr,
    staged_in-running_cr, staged_in-cancelled, staged_in-system_error, staged_in-permanent_failure,
  )

  follow-Keeps : (status : JobStatus) → Keeps I (follow status id)
  unfolding follow follow_running follow_done
  follow-Keeps JobStatus.running = search step_rules depth 12
  follow-Keeps JobStatus.done = search step_rules depth 12
  follow-Keeps JobStatus.other = search step_rules

  pub update_job-Keeps : Keeps I (update_job site id)
  unfolding update_job
  update_job-Keeps =
      Keeps-find_job id _ (find_job-Keeps id)
        (search (step_rules, get_status-Keeps, follow-Keeps) depth 12)

  fail_permanently-Keeps : (message : String) → Keeps I (fail_permanently backend id message)
  unfolding fail_permanently
  fail_permanently-Keeps message = search step_rules depth 8

  input_handler-Keeps : (e : Exn) → Keeps I (input_handler backend id e)
  unfolding input_handler
  input_handler-Keeps (file_not_found m a) = fail_permanently-Keeps _
  input_handler-Keeps (value_error a) = search (step_rules, fail_permanently-Keeps) depth 8
  input_handler-Keeps e = search step_rules

  log_versions-Keeps : (versions : List String) → Keeps I (log_versions backend id versions)
  unfolding log_versions
  log_versions-Keeps [] = search step_rules
  log_versions-Keeps (version ∷ versions) =
      Keeps-bind _ _ (log-Keeps id _ _) (λ _. log_versions-Keeps versions)

  conclude_start-Keeps : Keeps I (conclude_start backend id)
  unfolding conclude_start
  conclude_start-Keeps = search step_rules depth 12

  get_projects-Keeps : Keeps I services.get_projects
  get_projects-Keeps = of_quiet quiet.get_projects

  start_job-Keeps : Keeps I (start_job site runner id)
  start_job-Keeps = of_quiet (start_job-Quiet site runner id)

  start_staged-Keeps : Keeps I (start_staged backend id)
  unfolding start_staged
  start_staged-Keeps =
      search
        (step_rules, log_versions-Keeps, conclude_start-Keeps, get_projects-Keeps, start_job-Keeps)
        depth 16

  staging_handler-Keeps : (e : Exn) → Keeps I (staging_handler backend id e)
  unfolding staging_handler
  staging_handler-Keeps (file_not_found m a) = search (step_rules, fail_permanently-Keeps) depth 8
  staging_handler-Keeps e = search step_rules

  stage_job-Keeps :
      (files : List File) (workflow : String) → Keeps I (services.stage_job id files workflow)
  stage_job-Keeps files workflow = of_quiet (quiet.stage_job id files workflow)

  stage_files-Keeps :
      (files : List File) (workflow : String) → Keeps I (stage_files backend id files workflow)
  unfolding stage_files
  stage_files-Keeps files workflow =
      search (step_rules, stage_job-Keeps, staging_handler-Keeps) depth 8

  translate_workflow-Keeps :
      (content : Option String) → Keeps I (services.translate_workflow content)
  translate_workflow-Keeps content = of_quiet (quiet.translate_workflow content)

  stage_planned-Keeps : (files : List File) → Keeps I (stage_planned backend id files)
  unfolding stage_planned
  stage_planned-Keeps files =
      search (step_rules, translate_workflow-Keeps, stage_files-Keeps, start_staged-Keeps) depth 12

  planning_handler-Keeps : (e : Exn) → Keeps I (planning_handler backend id e)
  unfolding planning_handler
  planning_handler-Keeps invalid_job = search (step_rules, fail_permanently-Keeps) depth 8
  planning_handler-Keeps e = search step_rules

  plan_job-Keeps : Keeps I (services.plan_job id)
  plan_job-Keeps = of_quiet (quiet.plan_job id)

  plan-Keeps : Keeps I (plan backend id)
  unfolding plan
  plan-Keeps = search (step_rules, plan_job-Keeps, planning_handler-Keeps) depth 8

  plan_and_stage-Keeps : (files : List File) → Keeps I (plan_and_stage backend id files)
  unfolding plan_and_stage
  plan_and_stage-Keeps files = search (step_rules, plan-Keeps, stage_planned-Keeps) depth 12

  unless_cancelled-Keeps :
      (files : List File) (b : Bool) → Keeps I (unless_cancelled backend id files b)
  unfolding unless_cancelled
  unless_cancelled-Keeps files true = search step_rules
  unless_cancelled-Keeps files false = plan_and_stage-Keeps files

  check_valid_and_stage-Keeps :
      (files : List File) (b : Bool) → Keeps I (check_valid_and_stage backend id files b)
  unfolding check_valid_and_stage
  check_valid_and_stage-Keeps files false = fail_permanently-Keeps _
  check_valid_and_stage-Keeps files true = search (step_rules, unless_cancelled-Keeps) depth 8

  check_and_stage-Keeps : (files : List File) → Keeps I (check_and_stage backend id files)
  unfolding check_and_stage
  check_and_stage-Keeps files = search (step_rules, check_valid_and_stage-Keeps) depth 8

  resolve_input-Keeps : Keeps I (services.resolve_input id)
  resolve_input-Keeps = of_quiet (quiet.resolve_input id)

  resolve-Keeps : Keeps I (resolve backend id)
  unfolding resolve
  resolve-Keeps = search (step_rules, resolve_input-Keeps, input_handler-Keeps) depth 8

  resolved_then-Keeps : (files : Option (List File)) → Keeps I (resolved_then backend id files)
  resolved_then-Keeps none = search step_rules
  resolved_then-Keeps (some files) = check_and_stage-Keeps files

  pub stage_and_start_job-Keeps : Keeps I (stage_and_start_job backend id)
  unfolding stage_and_start_job
  stage_and_start_job-Keeps = search (step_rules, resolve-Keeps, resolved_then-Keeps) depth 8

  pub cancel-Keeps : Keeps I (cancel backend id)
  unfolding cancel
  cancel-Keeps = search (step_rules, cancel_job-Keeps) depth 8

  conclude_destaging-Keeps :
      (result : JobState) → staged_in result ≡ true → Keeps I (conclude_destaging backend result id)
  unfolding conclude_destaging
  conclude_destaging-Keeps result h = search step_rules depth 12

  result_of-Keeps :
      (remote_error : String)
      → Keeps I (conclude_destaging backend (get_cwltool_result remote_error) id)
  result_of-Keeps remote_error = conclude_destaging-Keeps _ (result-staged_in remote_error)

  destage_job_output-Keeps : Keeps I (services.destage_job_output id)
  destage_job_output-Keeps = of_quiet (quiet.destage_job_output id)

  publish_job_output-Keeps : (files : List File) → Keeps I (services.publish_job_output id files)
  publish_job_output-Keeps files = of_quiet (quiet.publish_job_output id files)

  destage_owned-Keeps : (remote_error : String) → Keeps I (destage_owned backend id remote_error)
  unfolding destage_owned
  destage_owned-Keeps remote_error =
      search (step_rules, destage_job_output-Keeps, publish_job_output-Keeps, result_of-Keeps) depth
        12

  pub destage_job-Keeps : Keeps I (destage_job backend id)
  unfolding destage_job
  destage_job-Keeps = search (step_rules, destage_owned-Keeps) depth 8

  pub delete_remote_dir-Keeps : Keeps I (services.delete_remote_dir id)
  delete_remote_dir-Keeps = of_quiet (quiet.delete_remote_dir id)

  pub delete_output_dir-Keeps : Keeps I (services.delete_output_dir id)
  delete_output_dir-Keeps = of_quiet (quiet.delete_output_dir id)

  pub delete-Keeps : Keeps I (remove id) → Keeps I (delete backend id)
  unfolding delete
  delete-Keeps removal =
      search (step_rules, delete_remote_dir-Keeps, delete_output_dir-Keeps) depth 8

pub ruleset method_rules = (
  keeps_rules, log-Keeps, read-Keeps, find_job-Keeps, write_state-Keeps, attempt-Keeps,
  cancel_job-Keeps, update_job-Keeps, stage_and_start_job-Keeps, cancel-Keeps, destage_job-Keeps,
  delete_remote_dir-Keeps, delete_output_dir-Keeps,
)
