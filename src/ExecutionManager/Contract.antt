-- ===== src/ExecutionManager/Contract.antt =====
-- What the methods of the ExecutionManager promise of a job, as statements on the worlds before and
-- after a call. `At id P w` says that the job `id` has one row, that the row satisfies `P`, and that
-- no later step of the front end creates `id` again; `env` of the world is arbitrary, so that the
-- front end may run any statements between those of the back end.
use simple_cwl_xenon_service.Prelude.{ℕ, ◌≡◌, Bool, true, false, some, String}
use simple_cwl_xenon_service.Exception.{Exn, raised, first_arg}
use simple_cwl_xenon_service.JobState.{JobState, is_final, state_eq}
use simple_cwl_xenon_service.World.{World}
use simple_cwl_xenon_service.World.At.{InState, StableTest, At}
use simple_cwl_xenon_service.World.Triple.{Post}
use simple_cwl_xenon_service.ExecutionManager.{stage_and_start_job, destage_job}
use simple_cwl_xenon_service.ExecutionManager.Interface.{Backend, AreQuiet, AreFramed}
use simple_cwl_xenon_service.ExecutionManager.Staging.{staging, started, stage_and_start_job-Triple}
use simple_cwl_xenon_service.ExecutionManager.Concluding.{
  finishing, destaging, destaged, destage_job-Triple,
}
use simple_cwl_xenon_service.ExecutionManager.Recovery.{anywhere, recovered, recover_job-Triple}
use simple_cwl_xenon_service.ExecutionManager.Failures.{process_handler-Triple}
use simple_cwl_xenon_service.ExecutionManager.Final.{Kept}
use simple_cwl_xenon_service.ExecutionManager.Round.{process_one-Triple}
use simple_cwl_xenon_service.ExecutionManager.Process.{
  is_system_exception, is_io_failure, process_handler, process_one, recover_job,
}

-- Staging and starting a job that is in STAGING_IN or STAGING_IN_CR leaves it in WAITING,
-- WAITING_CR, CANCELLED or PERMANENT_FAILURE, whatever the front end does between any two
-- statements and whatever the outside replies; if an exception leaves the method, the job is still
-- in STAGING_IN or STAGING_IN_CR. The parts are assumed to leave the state of jobs alone, and
-- `uuid4` not to draw the job's id again.
pub stage_and_start_job-Started :
    (id : ℕ) (backend : Backend)
    → AreQuiet backend.services
    → (w : World) → At id (InState staging) w
    → Post
        (λ _. At id (InState started))
        (λ _. At id (InState staging))
        (stage_and_start_job backend id w)
stage_and_start_job-Started id backend quiet w a =
    (stage_and_start_job-Triple id backend quiet).run w a

-- Destaging a job that was in FINISHED, or was cancelled since, and whose runner wrote the log
-- `cwltool_log`, leaves it in CANCELLED or in the state that `get_cwltool_result` gives for the log,
-- whatever the front end does meanwhile and whatever the outside replies; if an exception leaves the
-- method, the job is in STAGING_OUT or STAGING_OUT_CR. The parts are assumed to leave the state of
-- jobs alone, and `uuid4` not to draw the id again.
pub destage_job-Destaged :
    (id : ℕ) (backend : Backend)
    → AreQuiet backend.services
    → (cwltool_log : String) (w : World)
    → At id (λ r. InState finishing r × (r.remote_error ≡ cwltool_log)) w
    → Post
        (λ _. At id (InState (destaged cwltool_log)))
        (λ _. At id (InState destaging))
        (destage_job backend id w)
destage_job-Destaged id backend quiet cwltool_log w a =
    (destage_job-Triple id backend quiet cwltool_log).run w a

-- After the recovery of a job it is in neither STAGING_IN nor STAGING_OUT, whatever its state was
-- before and whatever the front end does meanwhile; if an exception leaves the recovery, the job
-- is still there. The parts are assumed to leave the state of jobs alone, and `uuid4` not to draw
-- the id again.
pub recover_job-Recovered :
    (id : ℕ) (backend : Backend)
    → AreQuiet backend.services
    → (w : World) → At id (InState anywhere) w
    → Post
        (λ _. At id (InState recovered))
        (λ _. At id (InState anywhere))
        (recover_job backend id w)
recover_job-Recovered id backend quiet w a = (recover_job-Triple id backend quiet).run w a

-- A job that is in a final state when its round of `_process_jobs` begins is deleted or in a final
-- state when the round ends, whatever the front end does meanwhile, whatever the outside replies,
-- and also where an exception leaves the round's handlers. The parts are assumed to leave the state
-- of jobs alone, the deletion of files to leave `previous_state` alone, and `uuid4` not to draw the
-- id again.
pub process_one-Kept :
    (id : ℕ) (backend : Backend)
    → AreQuiet backend.services
    → AreFramed backend.services
    → (check_remote : Bool) (w : World) → At id (InState is_final) w
    → Post (λ _. Kept id) (λ _. Kept id) (process_one backend check_remote id w)
process_one-Kept id backend quiet framed check_remote w a =
    (process_one-Triple id backend quiet framed check_remote).run w a

-- On an exception that is a system problem but no failure of the disk or the quota, the handler of
-- `_process_jobs` puts the job back in the state `previous` in which its round began, wherever it
-- was since (it may be in any set of states that cancel requests do not leave), counts jobs as
-- running, and goes on; only if the exception has no argument does the handler raise, with the job
-- where it was. It is assumed that the round has read the job's state, and that `uuid4` does not
-- draw its id again.
pub process_handler-Reset :
    (id : ℕ) (backend : Backend) (previous : JobState) (S : JobState → Bool)
    → StableTest S
    → (e : Exn) → is_system_exception e ≡ true
    → is_io_failure e ≡ false
    → (w : World) → At id (InState S) w
    → w.previous_state ≡ some previous
    → Post
        (λ go_on w'.
          (go_on ≡ true)
          × At id (InState (λ s. state_eq s previous)) w'
          × (w'.have_running_jobs ≡ true))
        (λ x w'.
          (first_arg e ≡ raised x) × (At id (InState S) w' × (w'.previous_state ≡ some previous)))
        (process_handler backend id e w)
process_handler-Reset id backend previous S stable e system network w a begun =
    (process_handler-Triple id backend previous S stable e system network).run w (a, begun)
