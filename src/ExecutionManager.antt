-- ===== src/ExecutionManager.antt =====
-- cerise/back_end/execution_manager.py: the class ExecutionManager, which moves every job through its
-- states. The file staging and the remote API are reached through the interface `Services`.
pub mod Interface
pub mod Staging
pub mod Concluding
pub mod Cancelling
pub mod Process
pub mod Service
pub mod Recovery
pub mod Failures
pub mod Final
pub mod Round
pub mod Contract
pub mod Bystander
pub mod Methods
pub mod Handling
pub mod Loops
pub mod Safety
pub mod Retention
pub mod Onward
pub mod Resubmission
pub mod Subject
pub mod Calm
pub mod Destages
pub mod Undisturbed
pub mod Parts
pub mod Serving
pub mod Clients
use Prim.Native.String.{◌++◌}
use simple_cwl_xenon_service.Prelude.{
  ℕ, String, Bool, true, false, ◌&&◌, ◌||◌, not, Option, none, some, List, [], ◌∷◌, if◌then◌else◌,
}
use simple_cwl_xenon_service.Exception.{
  Exn, Outcome, ok, raised, file_not_found, value_error, invalid_job, first_arg,
}
use simple_cwl_xenon_service.JobState.{
  JobState, submitted, staging_in, waiting, finished, staging_out, staging_in_cr, waiting_cr,
  running_cr, staging_out_cr, cancelled, system_error, permanent_failure, state_eq,
}
use simple_cwl_xenon_service.JobStore.{level_info, level_error}
use simple_cwl_xenon_service.JobStore.Table.{Row}
use simple_cwl_xenon_service.Cwl.{is_workflow, get_cwltool_result}
use simple_cwl_xenon_service.Cwl.Files.{File}
use simple_cwl_xenon_service.World.{
  M, pure, raise, lift, ◌>>=◌, ◌>>◌, try_except, read, write_state, attempt, log, remove, unless,
}
use simple_cwl_xenon_service.JobRunner.{start_job, cancel_job}
use Interface.{Backend}

module _ (backend : Backend) where
  open backend use {site, runner, services, safe_load}

  abbrev info : ℕ → String → M Unit
  info id message = log site id level_info (message ∷ [])

  abbrev error : ℕ → String → M Unit
  error id message = log site id level_error (message ∷ [])

  -- `job.error(message); job.state = JobState.PERMANENT_FAILURE; return`
  unfoldable pub fail_permanently : ℕ → String → M Unit
  fail_permanently id message = do error id message; write_state permanent_failure id

  -- The handlers of `resolve_input`.
  unfoldable pub input_handler : ℕ → Exn → M Unit
  unfolding fail_permanently
  input_handler id (file_not_found m a) =
      fail_permanently id "Input not found, failing with PermanentFailure"
  input_handler id (value_error a) = do
    reason ← lift (first_arg (value_error a))
    fail_permanently id ("Invalid input: " ++ reason)
  input_handler id e = raise e

  unfoldable pub log_versions : ℕ → List String → M Unit
  log_versions id [] = pure tt
  log_versions id (version ∷ versions) = info id ("  " ++ version) >> log_versions id versions

  -- The transition that ends staging in. The state is read for the log of the service.
  unfoldable pub conclude_start : ℕ → M Unit
  conclude_start id = do
    started ← attempt staging_in waiting id
    unless started do
      cancelling ← attempt staging_in_cr waiting_cr id
      unless cancelling do read (λ r. r.state) id; write_state system_error id

  unfoldable pub start_staged : ℕ → M Unit
  unfolding log_versions conclude_start
  start_staged id = do
    info id "Staged job, now starting"
    info id "API versions:"
    versions ← services.get_projects
    log_versions id versions
    start_job site runner id
    info id "Started job"
    conclude_start id

  unfoldable pub staging_handler : ℕ → Exn → M Bool
  unfolding fail_permanently
  staging_handler id (file_not_found m a) =
      fail_permanently id "Input not found, failing with PermanentFailure" >> pure false
  staging_handler id e = raise e

  unfoldable pub stage_files : ℕ → List File → String → M Bool
  unfolding staging_handler
  stage_files id files workflow =
      try_except (services.stage_job id files workflow >> pure true) (staging_handler id)

  -- From the planned job on.
  unfoldable pub stage_planned : ℕ → List File → M Unit
  unfolding stage_files start_staged
  stage_planned id files = do
    info id "Planned job, now staging in inputs"
    content ← read (λ r. r.workflow_content) id
    workflow ← services.translate_workflow content
    staged ← stage_files id files workflow
    unless (not staged) (start_staged id)

  unfoldable pub planning_handler : ℕ → Exn → M Bool
  unfolding fail_permanently
  planning_handler id invalid_job = fail_permanently id "Job is invalid" >> pure false
  planning_handler id e = raise e

  unfoldable pub plan : ℕ → M Bool
  unfolding planning_handler
  plan id = try_except (services.plan_job id >> pure true) (planning_handler id)

  -- From the workflow check on.
  unfoldable pub plan_and_stage : ℕ → List File → M Unit
  unfolding plan stage_planned
  plan_and_stage id files = do
    info id "Resolved input, now planning"
    planned ← plan id
    unless (not planned) do
      state ← read (λ r. r.state) id
      unless (state_eq state permanent_failure) (stage_planned id files)

  unfoldable pub unless_cancelled : ℕ → List File → Bool → M Unit
  unfolding plan_and_stage
  unless_cancelled id files true = info id "Job was cancelled while resolving input"
  unless_cancelled id files false = plan_and_stage id files

  unfoldable pub check_valid_and_stage : ℕ → List File → Bool → M Unit
  unfolding fail_permanently unless_cancelled
  check_valid_and_stage id files false = fail_permanently id "Input is not a CWL workflow"
  check_valid_and_stage id files true = do
    stopped ← attempt staging_in_cr cancelled id
    unless_cancelled id files stopped

  unfoldable pub check_and_stage : ℕ → List File → M Unit
  unfolding check_valid_and_stage
  check_and_stage id files = do
    content ← read (λ r. r.workflow_content) id
    valid ← lift (is_workflow safe_load content)
    check_valid_and_stage id files valid

  unfoldable pub resolve : ℕ → M (Option (List File))
  unfolding input_handler
  resolve id =
      try_except
        (do info id "Resolving inputs"; files ← services.resolve_input id; pure (some files))
        (λ e. input_handler id e >> pure none)

  abbrev pub resolved_then : ℕ → Option (List File) → M Unit
  resolved_then id none = pure tt
  resolved_then id (some files) = check_and_stage id files

  unfoldable pub stage_and_start_job : ℕ → M Unit
  unfolding resolve check_and_stage
  stage_and_start_job id = resolve id >>= resolved_then id

  unfoldable pub cancel : ℕ → M Unit
  cancel id = do
    info id "Cancelling job"
    still_running ← cancel_job site id
    if still_running
        then write_state running_cr id
        else do write_state cancelled id; info id "Job cancelled"

  unfoldable pub conclude_destaging : JobState → ℕ → M Unit
  conclude_destaging result id = do
    finished_out ← attempt staging_out result id
    unless finished_out do
      stopped ← attempt staging_out_cr cancelled id
      unless stopped (write_state system_error id)

  -- What follows once the job is in STAGING_OUT.
  unfoldable pub destage_owned : ℕ → String → M Unit
  unfolding conclude_destaging
  destage_owned id remote_error = do
    info id "Starting destaging of results"
    output_files ← services.destage_job_output id
    services.publish_job_output id output_files
    info id "Results downloaded and available"
    conclude_destaging (get_cwltool_result remote_error) id

  unfoldable pub destage_job : ℕ → M Unit
  unfolding destage_owned
  destage_job id = do
    remote_error ← read (λ r. r.remote_error) id
    owned ← attempt finished staging_out id
    unless (not owned) (destage_owned id remote_error)

  unfoldable pub delete : ℕ → M Unit
  delete id = do services.delete_remote_dir id; services.delete_output_dir id; remove id
