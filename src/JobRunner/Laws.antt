-- ===== src/JobRunner/Laws.antt =====
-- JobRunner: starting and cancelling a job move it nowhere; the state is the caller's to set.
use simple_cwl_xenon_service.Prelude.{ℕ, refl, String}
use simple_cwl_xenon_service.World.{JobStatus, Site}
use simple_cwl_xenon_service.World.Quiet.{Quiet, Ordinary, quiet_rules}
use simple_cwl_xenon_service.JobRunner.{
  Runner, set_remote_job_id, describe_job, start_job, cancel_running, cancel_remote, cancel_job,
}

set_remote_job_id-Ordinary : (remote_id : String) → Ordinary (set_remote_job_id remote_id)
set_remote_job_id-Ordinary remote_id = record {
  keeps_id = λ r. refl;
  keeps_state = λ r. refl;
  keeps_request = λ r. refl;
}

module _ (site : Site) where
  describe_job-Quiet : (runner : Runner) (id : ℕ) → Quiet (describe_job site runner id)
  unfolding describe_job
  describe_job-Quiet runner id = search quiet_rules depth 25

  pub start_job-Quiet : (runner : Runner) (id : ℕ) → Quiet (start_job site runner id)
  unfolding start_job
  start_job-Quiet runner id =
      search (quiet_rules, set_remote_job_id-Ordinary, describe_job-Quiet) depth 12

  cancel_running-Quiet : (id : ℕ) (status : JobStatus) → Quiet (cancel_running site id status)
  unfolding cancel_running
  cancel_running-Quiet id JobStatus.running = search quiet_rules depth 8
  cancel_running-Quiet id _ = search quiet_rules

  cancel_remote-Quiet : (id : ℕ) → Quiet (cancel_remote site id)
  unfolding cancel_remote
  cancel_remote-Quiet id = search (quiet_rules, cancel_running-Quiet) depth 12

  pub cancel_job-Quiet : (id : ℕ) → Quiet (cancel_job site id)
  unfolding cancel_job
  cancel_job-Quiet id = search (quiet_rules, cancel_remote-Quiet) depth 12
