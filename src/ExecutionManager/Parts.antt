-- ===== src/ExecutionManager/Parts.antt =====
-- The execution manager with its own parts in place of the interface: LocalFiles, RemoteJobFiles,
-- RemoteApi and JobPlanner meet its laws, so that the manager's contracts hold without hypotheses on
-- parts. The decorator `retry` of the installation stays a parameter.
use simple_cwl_xenon_service.Prelude.{ℕ, ◌≡◌, String, Bool}
use simple_cwl_xenon_service.Prelude.Int.{ℤ}
use simple_cwl_xenon_service.Exception.{Outcome}
use simple_cwl_xenon_service.JobState.{is_final}
use simple_cwl_xenon_service.Value.{Value}
use simple_cwl_xenon_service.World.{World, Site, pure, ◌>>◌}
use simple_cwl_xenon_service.World.At.{InState, At}
use simple_cwl_xenon_service.World.Triple.{Post}
use simple_cwl_xenon_service.JobRunner.{Runner}
use simple_cwl_xenon_service.JobPlanner
use simple_cwl_xenon_service.JobPlanner.{Requirements}
use simple_cwl_xenon_service.JobPlanner.Laws.{plan_job-Quiet}
use simple_cwl_xenon_service.LocalFiles
use simple_cwl_xenon_service.LocalFiles.Source.{Exchange}
use simple_cwl_xenon_service.LocalFiles.Laws.{
  resolve_input-Quiet, publish_job_output-Quiet, delete_output_dir-Quiet, delete_output_dir-Framed,
}
use simple_cwl_xenon_service.RemoteJobFiles
use simple_cwl_xenon_service.RemoteJobFiles.{Remote}
use simple_cwl_xenon_service.RemoteJobFiles.Laws.{
  stage_job-Quiet, destage_job_output-Quiet, update_job-Quiet, delete_job-Quiet, delete_job-Framed,
}
use simple_cwl_xenon_service.RemoteApi
use simple_cwl_xenon_service.RemoteApi.{Api}
use simple_cwl_xenon_service.RemoteApi.Projects
use simple_cwl_xenon_service.RemoteApi.Projects.{Retry}
use simple_cwl_xenon_service.RemoteApi.Laws.{translate_workflow-Quiet, get_projects-Quiet}
use simple_cwl_xenon_service.ExecutionManager.{stage_and_start_job, destage_job}
use simple_cwl_xenon_service.ExecutionManager.Interface.{Services, AreQuiet, AreFramed, Backend}
use simple_cwl_xenon_service.ExecutionManager.Process.{process_one, recover_job}
use simple_cwl_xenon_service.ExecutionManager.Staging.{staging, started}
use simple_cwl_xenon_service.ExecutionManager.Concluding.{finishing, destaging, destaged}
use simple_cwl_xenon_service.ExecutionManager.Recovery.{anywhere, recovered}
use simple_cwl_xenon_service.ExecutionManager.Final.{Kept}
use simple_cwl_xenon_service.ExecutionManager.Contract.{
  stage_and_start_job-Started, destage_job-Destaged, recover_job-Recovered, process_one-Kept,
}

-- What `ExecutionManager.__init__` makes its parts of. `looks` is how often the installation looks for a
-- script that it copied.
pub record Parts : Type 0 where
  pub site : Site
  pub runner : Runner
  pub exchange : Exchange
  pub remote : Remote
  pub api : Api
  pub safe_load : String → Outcome Value
  pub as_column : Value → Outcome ℤ
  pub show : Value → String
  pub requirements : Requirements
  pub retry : Retry
  pub looks : ℕ

module _ (parts : Parts) where
  open parts use {site, runner, exchange, remote, api, safe_load, as_column, show, requirements}

  abbrev pub services : Services
  services = record {
    resolve_input = LocalFiles.resolve_input site exchange;
    plan_job = JobPlanner.plan_job safe_load as_column show site requirements;
    translate_workflow = RemoteApi.translate_workflow site api;
    stage_job = RemoteJobFiles.stage_job site remote;
    get_projects = RemoteApi.get_projects site api;
    destage_job_output = RemoteJobFiles.destage_job_output site remote;
    publish_job_output = LocalFiles.publish_job_output site exchange;
    update_files = RemoteJobFiles.update_job site remote;
    delete_remote_dir = RemoteJobFiles.delete_job site remote;
    delete_output_dir = LocalFiles.delete_output_dir site exchange;
    install = Projects.install site api parts.retry parts.looks >> pure tt;
  }

  abbrev pub backend : Backend
  backend = record { site = site; runner = runner; services = services; safe_load = safe_load }

  pub services-AreQuiet : AreQuiet services
  services-AreQuiet = record {
    resolve_input = resolve_input-Quiet site exchange;
    plan_job = plan_job-Quiet safe_load as_column show site requirements;
    translate_workflow = translate_workflow-Quiet site api;
    stage_job = stage_job-Quiet site remote;
    get_projects = get_projects-Quiet site api;
    destage_job_output = destage_job_output-Quiet site remote;
    publish_job_output = publish_job_output-Quiet site exchange;
    update_files = update_job-Quiet site remote;
    delete_remote_dir = delete_job-Quiet site remote;
    delete_output_dir = delete_output_dir-Quiet site exchange;
  }

  pub services-AreFramed : AreFramed services
  services-AreFramed = record {
    delete_remote_dir = delete_job-Framed site remote;
    delete_output_dir = delete_output_dir-Framed site exchange;
  }

-- With its own parts, the execution manager stages and starts a job that is in STAGING_IN or
-- STAGING_IN_CR into WAITING, WAITING_CR, CANCELLED or PERMANENT_FAILURE, whatever the front end does
-- meanwhile and whatever scheduler and file systems reply; if an exception leaves the method, the job
-- is still in STAGING_IN or STAGING_IN_CR. `uuid4` is assumed not to draw the id again.
pub stage_with_parts-Started :
    (id : ℕ) (parts : Parts) (w : World)
    → At id (InState staging) w
    → Post
        (λ _. At id (InState started))
        (λ _. At id (InState staging))
        (stage_and_start_job (backend parts) id w)
stage_with_parts-Started id parts w a =
    stage_and_start_job-Started id (backend parts) (services-AreQuiet parts) w a

-- With its own parts, the execution manager destages a job that was in FINISHED, or was cancelled
-- since, into CANCELLED or the result that the runner's log shows, whatever front end, scheduler and
-- file systems do; if an exception leaves the method, the job is in STAGING_OUT or STAGING_OUT_CR.
-- `uuid4` is assumed not to draw the id again.
pub destage_with_parts-Destaged :
    (id : ℕ) (parts : Parts) (cwltool_log : String) (w : World)
    → At id (λ r. InState finishing r × (r.remote_error ≡ cwltool_log)) w
    → Post
        (λ _. At id (InState (destaged cwltool_log)))
        (λ _. At id (InState destaging))
        (destage_job (backend parts) id w)
destage_with_parts-Destaged id parts cwltool_log w a =
    destage_job-Destaged id (backend parts) (services-AreQuiet parts) cwltool_log w a

-- With its own parts, the execution manager recovers a job into a state other than STAGING_IN and
-- STAGING_OUT, whatever front end, scheduler and file systems do; if an exception leaves the recovery,
-- the job is still there. `uuid4` is assumed not to draw the id again.
pub recover_with_parts-Recovered :
    (id : ℕ) (parts : Parts) (w : World)
    → At id (InState anywhere) w
    → Post
        (λ _. At id (InState recovered))
        (λ _. At id (InState anywhere))
        (recover_job (backend parts) id w)
recover_with_parts-Recovered id parts w a =
    recover_job-Recovered id (backend parts) (services-AreQuiet parts) w a

-- With its own parts, a round of `_process_jobs` on a job in a final state ends with the job deleted
-- or in a final state, whatever front end, scheduler and file systems do, and also where an exception
-- leaves the round's handlers. `uuid4` is assumed not to draw the id again.
pub process_with_parts-Kept :
    (id : ℕ) (parts : Parts) (check_remote : Bool) (w : World)
    → At id (InState is_final) w
    → Post (λ _. Kept id) (λ _. Kept id) (process_one (backend parts) check_remote id w)
process_with_parts-Kept id parts check_remote w a =
    process_one-Kept id (backend parts) (services-AreQuiet parts) (services-AreFramed parts)
      check_remote w a
