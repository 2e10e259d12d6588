-- ===== src/JobRunner.antt =====
-- cerise/back_end/job_runner.py: the class JobRunner, which submits jobs to the scheduler, follows
-- them, and cancels them.
pub mod Laws
pub mod Follow
pub mod Nodes
pub mod Reserving
use simple_cwl_xenon_service.Prelude.{
  ℕ, zero, suc, ◌+◌, ◌-◌, ◌/◌, String, Bool, true, false, ◌||◌, Option, none, some, List, [], ◌∷◌,
  if◌then◌else◌,
}
use simple_cwl_xenon_service.Prelude.Int.{ℤ, pos, negsuc, ltb_ℤ}
use text.Mathlib.Text.{◌==◌ as str_eq}
use simple_cwl_xenon_service.Exception.{Outcome, ok, raised, zero_division_error}
use simple_cwl_xenon_service.JobState.{
  JobState, waiting, running, finished, waiting_cr, running_cr, cancelled, is_remote,
}
use simple_cwl_xenon_service.JobStore.Table.{Row}
use simple_cwl_xenon_service.World.{
  JobStatus, done, other, Site, JobDescription, M, pure, lift, ◌>>=◌, ◌>>◌, find_job, read, write,
  attempt, sched_get_status, sched_cancel, sched_submit,
}

-- The fields of a JobRunner other than the job store and the scheduler. `direct` tells whether the
-- scheduler is a DirectGnuScheduler.
pub record Runner : Type 0 where
  pub remote_cwlrunner : String
  pub direct : Bool
  pub queue_name : Option String
  pub mpi_slots_per_node : ℕ
  pub scheduler_options : Option String
  pub cores_per_node : ℕ

abbrev pub is_running : JobStatus → Bool
is_running JobStatus.running = true
is_running _ = false

-- The transitions of `update_job` when the scheduler says that the job runs.
unfoldable pub follow_running : ℕ → M Unit
follow_running id = do attempt waiting running id; attempt waiting_cr running_cr id; pure tt

-- The transitions of `update_job` when the scheduler says that the job is done.
unfoldable pub follow_done : ℕ → M Unit
follow_done id = do
  attempt waiting finished id
  attempt running finished id
  attempt waiting_cr cancelled id
  attempt running_cr cancelled id
  pure tt

unfoldable pub follow : JobStatus → ℕ → M Unit
unfolding follow_running follow_done
follow JobStatus.running id = follow_running id
follow JobStatus.done id = follow_done id
follow JobStatus.other id = pure tt

-- `ceil(required / cores_per_node)`, rounded exactly.
abbrev pub ceil_div : ℕ → ℕ → ℕ
ceil_div a b = (a + b - 1) / b

-- `if job.required_num_cores > 0`; the default number of nodes otherwise.
unfoldable pub nodes_for : ℤ → ℕ → Outcome (Option ℕ)
nodes_for (negsuc n) cores = ok none
nodes_for (pos zero) cores = ok none
nodes_for (pos (suc n)) zero = raised zero_division_error
nodes_for (pos (suc n)) (suc c) = ok (some (ceil_div (suc n) (suc c)))

-- `if job.time_limit > 0`
unfoldable pub time_for : ℤ → Option ℕ
time_for (negsuc n) = none
time_for (pos zero) = none
time_for (pos (suc n)) = some (suc n)

-- A configured text is passed on unless it is missing or empty.
abbrev pub if_given : Option String → Option String
if_given none = none
if_given (some text) = if str_eq text "" then none else some text

abbrev set_remote_job_id : String → Row → Row
set_remote_job_id remote_id r = record r { remote_job_id = some remote_id }

module _ (site : Site) (runner : Runner) where
  -- The job description that `start_job` builds. It reads a positive limit or number of cores a
  -- second time; no statement of the front end writes those columns, so one reading stands here.
  describe_job : ℕ → M JobDescription
  describe_job id = do
    working_directory ← read (λ r. r.remote_workdir_path) id
    workflow_path ← read (λ r. r.remote_workflow_path) id
    input_path ← read (λ r. r.remote_input_path) id
    stdout_file ← read (λ r. r.remote_stdout_path) id
    stderr_file ← read (λ r. r.remote_stderr_path) id
    system_out_file ← read (λ r. r.remote_system_out_path) id
    system_err_file ← read (λ r. r.remote_system_err_path) id
    time_limit ← read (λ r. r.time_limit) id
    required_num_cores ← read (λ r. r.required_num_cores) id
    num_nodes ← lift (nodes_for required_num_cores runner.cores_per_node)
    pure (record {
      working_directory = working_directory;
      command = runner.remote_cwlrunner;
      arguments = workflow_path ∷ input_path ∷ [];
      stdout_file = stdout_file;
      stderr_file = stderr_file;
      system_out_file = system_out_file;
      system_err_file = system_err_file;
      time_reserved = time_for time_limit;
      num_nodes = num_nodes;
      mpi_processes_per_node = if runner.direct then none else some runner.mpi_slots_per_node;
      queue_name = if_given runner.queue_name;
      extra_scheduler_options = if_given runner.scheduler_options;
    })

  unfoldable pub start_job : ℕ → M Unit
  unfolding describe_job
  start_job job_id = do
    id ← find_job job_id
    desc ← describe_job id
    remote_id ← sched_submit site desc
    write (set_remote_job_id remote_id) id

module _ (site : Site) where
  unfoldable pub update_job : ℕ → M Unit
  unfolding follow
  update_job job_id = do
    id ← find_job job_id
    remote_id ← read (λ r. r.remote_job_id) id
    status ← sched_get_status site remote_id
    follow status id

  -- The request to the scheduler, which is sent only if the job runs.
  unfoldable pub cancel_running : ℕ → JobStatus → M Bool
  cancel_running id JobStatus.running = do
    remote_id ← read (λ r. r.remote_job_id) id
    new_state ← sched_cancel site remote_id
    pure (is_running new_state)
  cancel_running id _ = pure false

  unfoldable pub cancel_remote : ℕ → M Bool
  cancel_remote id = do
    remote_id ← read (λ r. r.remote_job_id) id
    status ← sched_get_status site remote_id
    cancel_running id status

  unfoldable pub cancel_job : ℕ → M Bool
  unfolding cancel_remote cancel_running
  cancel_job job_id = do
    id ← find_job job_id
    state ← read (λ r. r.state) id
    if is_remote state then cancel_remote id else pure false
