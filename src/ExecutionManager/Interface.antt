-- ===== src/ExecutionManager/Interface.antt =====
-- What the execution manager uses of its parts: LocalFiles (resolve_input, publish_job_output,
-- delete_output_dir), RemoteJobFiles (stage_job, destage_job_output, update_files, delete_remote_dir),
-- RemoteApi (translate_workflow, get_projects, install) and JobPlanner (plan_job). None of them writes
-- the column `state`: that is the law which the manager's own theorems take.
use simple_cwl_xenon_service.Prelude.{ℕ, String, Option, List}
use simple_cwl_xenon_service.Exception.{Outcome}
use simple_cwl_xenon_service.Value.{Value}
use simple_cwl_xenon_service.Cwl.Files.{File}
use simple_cwl_xenon_service.World.{Site, M}
use simple_cwl_xenon_service.JobRunner.{Runner}
use simple_cwl_xenon_service.World.Quiet.{Quiet}
use simple_cwl_xenon_service.World.Frame.{Framed}

pub record Services : Type 0 where
  pub resolve_input : ℕ → M (List File)
  pub plan_job : ℕ → M Unit
  pub translate_workflow : Option String → M String
  pub stage_job : ℕ → List File → String → M Unit
  pub get_projects : M (List String)
  pub destage_job_output : ℕ → M (List File)
  pub publish_job_output : ℕ → List File → M Unit
  pub update_files : ℕ → M Unit
  pub delete_remote_dir : ℕ → M Unit
  pub delete_output_dir : ℕ → M Unit
  pub install : M Unit

-- The parts move no job.
pub record AreQuiet (services : Services) : Type 0 where
  pub resolve_input : (id : ℕ) → Quiet (services.resolve_input id)
  pub plan_job : (id : ℕ) → Quiet (services.plan_job id)
  pub translate_workflow : (content : Option String) → Quiet (services.translate_workflow content)
  pub stage_job :
      (id : ℕ) (files : List File) (workflow : String)
      → Quiet (services.stage_job id files workflow)
  pub get_projects : Quiet services.get_projects
  pub destage_job_output : (id : ℕ) → Quiet (services.destage_job_output id)
  pub publish_job_output :
      (id : ℕ) (files : List File) → Quiet (services.publish_job_output id files)
  pub update_files : (id : ℕ) → Quiet (services.update_files id)
  pub delete_remote_dir : (id : ℕ) → Quiet (services.delete_remote_dir id)
  pub delete_output_dir : (id : ℕ) → Quiet (services.delete_output_dir id)

-- Deleting a job's files leaves the variable `previous_state` of `_process_jobs` alone.
pub record AreFramed (services : Services) : Type 0 where
  pub delete_remote_dir : (id : ℕ) → Framed (services.delete_remote_dir id)
  pub delete_output_dir : (id : ℕ) → Framed (services.delete_output_dir id)

-- The fields of an ExecutionManager, and the YAML parser.
pub record Backend : Type 0 where
  pub site : Site
  pub runner : Runner
  pub services : Services
  pub safe_load : String → Outcome Value
