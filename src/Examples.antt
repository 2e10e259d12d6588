-- ===== src/Examples.antt =====
-- One site, one back end and a store with one job, on which the theorems are applied.
mod Parts
mod Service
mod Planning
mod Answering
mod Documents
mod Runs
mod Transfers
use simple_cwl_xenon_service.JobRunner.Nodes.{nodes_for-bounds}
use simple_cwl_xenon_service.JobRunner.{nodes_for}
use simple_cwl_xenon_service.Prelude.{◌*◌, ◌+◌, ◌<◌, ◌≤◌, arith, not}
use simple_cwl_xenon_service.JobState.{to_cwl_state_string}
use simple_cwl_xenon_service.JobState.Laws.{to_cwl_state_string-is_final}
use simple_cwl_xenon_service.Front.{cancel_transitions}
use text.Mathlib.Text.{◌==◌ as str_eq}
use simple_cwl_xenon_service.Prelude.{
  ℕ, ◌≡◌, refl, Bool, true, false, ◌||◌, Option, none, some, String, [], ◌∷◌,
}
use simple_cwl_xenon_service.Prelude.Int.{pos}
use simple_cwl_xenon_service.Exception.{ok, raised, job_not_found, not_found_404, first_arg}
use simple_cwl_xenon_service.Value.{null}
use simple_cwl_xenon_service.Value.{
  Value, Entries, str, dict, dict_entry, no_entries, is_in, get_item,
}
use simple_cwl_xenon_service.Config.{
  Config, jobs, username, have_config, get_config, get_credential_variable,
}
use simple_cwl_xenon_service.Config.Laws.{get_credential_variable-first_of}
use simple_cwl_xenon_service.JobState.{
  JobState, staging_in, staging_in_cr, waiting, finished, staging_out, running_cr, success,
  is_final, cancellation_active, state_eq, is_remote,
}
use simple_cwl_xenon_service.JobState.Laws.{is_final_exclusive}
use simple_cwl_xenon_service.JobStore.{Store, rows, with_state, get_job}
use simple_cwl_xenon_service.JobStore.Table.{Row, new_row}
use simple_cwl_xenon_service.JobStore.Single.{Single}
use simple_cwl_xenon_service.Front.{
  mark_deleted, cancel_job_by_id, delete_job_by_id, get_job_by_id, get_job_log_by_id,
}
use simple_cwl_xenon_service.Front.Steps.{of_staging_in, cancel}
use simple_cwl_xenon_service.World.{World, Site, JobStatus, pure}
use simple_cwl_xenon_service.World.At.{InState, At}
use simple_cwl_xenon_service.World.Quiet.{Quiet-pure}
use simple_cwl_xenon_service.World.Frame.{Framed-pure}
use simple_cwl_xenon_service.World.Triple.{Post}
use simple_cwl_xenon_service.JobRunner.{Runner}
use simple_cwl_xenon_service.World.Triple.{Never}
use simple_cwl_xenon_service.Prelude.Int.{max_ℤ}
use simple_cwl_xenon_service.JobStore.{get_var}
use simple_cwl_xenon_service.Cwl.{get_cwltool_result}
use simple_cwl_xenon_service.Value.{contains}
use simple_cwl_xenon_service.Exception.{eof_error}
use simple_cwl_xenon_service.JobState.{of_name, state_name}
use simple_cwl_xenon_service.JobStore.{try_transition, delete_job}
use simple_cwl_xenon_service.JobStore.Select.{rows-delete_job}
use simple_cwl_xenon_service.Front.{post_job, get_job_by_id}
use simple_cwl_xenon_service.Front.Requests.{post_job-posted, posted}
use simple_cwl_xenon_service.JobStore.{get_var}
use simple_cwl_xenon_service.JobState.{submitted}
use simple_cwl_xenon_service.Front.Requests.{cancel_job_by_id-Single, delete_job_by_id-Single}
use simple_cwl_xenon_service.JobRunner.{update_job}
use simple_cwl_xenon_service.JobRunner.Follow.{after, update_job-After}
use simple_cwl_xenon_service.JobPlanner.{plan_job, max_list}
use simple_cwl_xenon_service.JobPlanner.Laws.{plan_job-InState}
use simple_cwl_xenon_service.JobPlanner.Bounds.{AllAtMost, IsIn, max_list_lem}
use simple_cwl_xenon_service.ExecutionManager
use simple_cwl_xenon_service.ExecutionManager.{stage_and_start_job, destage_job}
use simple_cwl_xenon_service.ExecutionManager.Interface.{Services, AreQuiet, AreFramed, Backend}
use simple_cwl_xenon_service.ExecutionManager.Staging.{staging, started, staging-StableTest}
use simple_cwl_xenon_service.ExecutionManager.Concluding.{
  cancel_ended, finishing, destaging, destaged, destaged-is_final,
}
use simple_cwl_xenon_service.ExecutionManager.Recovery.{anywhere, recovered}
use simple_cwl_xenon_service.ExecutionManager.Final.{Kept}
use simple_cwl_xenon_service.ExecutionManager.Process.{
  is_io_failure, process_handler, process_one, recover_job,
}
use simple_cwl_xenon_service.ExecutionManager.Cancelling.{
  HasState, still_runs, cancelled_to, cancel-HasState,
}
use simple_cwl_xenon_service.ExecutionManager.Contract.{
  stage_and_start_job-Started, destage_job-Destaged, recover_job-Recovered, process_one-Kept,
  process_handler-Reset,
}

abbrev site : Site
site = record {
  time = λ n. n;
  status_reply = λ calls id. ok JobStatus.done;
  cancel_reply = λ calls id. ok JobStatus.done;
  submit_reply = λ calls desc. ok "17";
  done_reply = λ calls call. ok tt;
  test_reply = λ calls call. ok true;
  text_reply = λ calls call. ok "";
  names_reply = λ calls call. ok [];
  command_reply = λ calls job. ok "18";
  wait_reply = λ calls id. ok (pos 0);
  walk_reply = λ calls call. ok [];
}

abbrev runner : Runner
runner = record {
  remote_cwlrunner = "/home/cerise/cwltiny.py";
  direct = false;
  queue_name = none;
  mpi_slots_per_node = 1;
  scheduler_options = none;
  cores_per_node = 16;
}

-- Parts that have no files to move.
abbrev services : Services
services = record {
  resolve_input = λ id. pure [];
  plan_job = λ id. pure tt;
  translate_workflow = λ content. pure "";
  stage_job = λ id files workflow. pure tt;
  get_projects = pure ("test 1.0" ∷ []);
  destage_job_output = λ id. pure [];
  publish_job_output = λ id files. pure tt;
  update_files = λ id. pure tt;
  delete_remote_dir = λ id. pure tt;
  delete_output_dir = λ id. pure tt;
  install = pure tt;
}

abbrev backend : Backend
backend = record { site = site; runner = runner; services = services; safe_load = λ text. ok null }

services-Quiet : AreQuiet services
services-Quiet = record {
  resolve_input = λ id. Quiet-pure _;
  plan_job = λ id. Quiet-pure _;
  translate_workflow = λ content. Quiet-pure _;
  stage_job = λ id files workflow. Quiet-pure _;
  get_projects = Quiet-pure _;
  destage_job_output = λ id. Quiet-pure _;
  publish_job_output = λ id files. Quiet-pure _;
  update_files = λ id. Quiet-pure _;
  delete_remote_dir = λ id. Quiet-pure _;
  delete_output_dir = λ id. Quiet-pure _;
}

services-Framed : AreFramed services
services-Framed = record {
  delete_remote_dir = λ id. Framed-pure _;
  delete_output_dir = λ id. Framed-pure _;
}

abbrev job : JobState → Row
job state = with_state state (new_row 7 "test" "file:///wf.cwl" "{}")

abbrev store : JobState → Store
store state = record { jobs = job state ∷ []; job_log = [] }

-- The front end cancels the job before the second statement of the back end.
abbrev world : JobState → World
world state = record {
  store = store state;
  env = [] ∷ (cancel of_staging_in 7 ∷ []) ∷ [];
  ticks = 0;
  calls = [];
  update_available = false;
  shutting_down = false;
  signals = [];
  have_running_jobs = false;
  job = some 7;
  previous_state = some waiting;
}

world-At :
    (S : JobState → Bool) (state : JobState) → S state ≡ true → At 7 (InState S) (world state)
world-At S state h = record { row = (job state, refl, h); apart = (tt, (tt, tt)) }

staging-staging_in : staging staging_in ≡ true
unfolding staging
staging-staging_in = refl

stage_and_start_job-Started_example :
    Post
      (λ _. At 7 (InState started))
      (λ _. At 7 (InState staging))
      (stage_and_start_job backend 7 (world staging_in))
stage_and_start_job-Started_example =
    stage_and_start_job-Started 7 backend services-Quiet (world staging_in)
      (world-At staging staging_in staging-staging_in)

finishing-finished : finishing finished ≡ true
unfolding finishing
finishing-finished = refl

destage_job-Destaged_example :
    Post
      (λ _. At 7 (InState (destaged "")))
      (λ _. At 7 (InState destaging))
      (destage_job backend 7 (world finished))
destage_job-Destaged_example =
    destage_job-Destaged 7 backend services-Quiet "" (world finished)
      (record { row = (job finished, refl, (finishing-finished, refl)); apart = (tt, (tt, tt)) })

cancellation_active-running_cr : cancellation_active running_cr ≡ true
unfolding cancellation_active
cancellation_active-running_cr = refl

-- The scheduler says that jobs run, also when it is asked to cancel them.
abbrev still_running : Backend
still_running = record backend {
  site = record site {
    status_reply = λ calls id. ok JobStatus.running;
    cancel_reply = λ calls id. ok JobStatus.running;
  };
}

cancel-HasState_example :
    Post
      (λ _.
        At 7 (HasState (cancelled_to (still_runs running_cr JobStatus.running JobStatus.running))))
      Never
      (ExecutionManager.cancel still_running 7 (world running_cr))
cancel-HasState_example =
    cancel-HasState 7 still_running running_cr cancellation_active-running_cr JobStatus.running
      JobStatus.running (λ calls id. refl) (λ calls id. refl) (world running_cr)
      (record { row = (job running_cr, refl, refl); apart = (tt, (tt, tt)) })

recover_job-Recovered_example :
    Post
      (λ _. At 7 (InState recovered))
      (λ _. At 7 (InState anywhere))
      (recover_job backend 7 (world staging_in))
recover_job-Recovered_example =
    recover_job-Recovered 7 backend services-Quiet (world staging_in)
      (world-At anywhere staging_in refl)

is_final-success : is_final success ≡ true
unfolding is_final
is_final-success = refl

process_one-Kept_example :
    Post (λ _. Kept 7) (λ _. Kept 7) (process_one backend true 7 (world success))
process_one-Kept_example =
    process_one-Kept 7 backend services-Quiet services-Framed true (world success)
      (world-At is_final success is_final-success)

process_handler-Reset_example :
    Post
      (λ go_on w'.
        (go_on ≡ true)
        × At 7 (InState (λ s. state_eq s waiting)) w'
        × (w'.have_running_jobs ≡ true))
      (λ x w'.
        (first_arg (eof_error (some "lost")) ≡ raised x)
        × (At 7 (InState staging) w' × (w'.previous_state ≡ some waiting)))
      (process_handler backend 7 (eof_error (some "lost")) (world staging_in))
unfolding is_io_failure
process_handler-Reset_example =
    process_handler-Reset 7 backend waiting staging staging-StableTest (eof_error (some "lost"))
      refl refl (world staging_in) (world-At staging staging_in staging-staging_in) refl

is_remote-waiting : is_remote waiting ≡ true
unfolding is_remote
is_remote-waiting = refl

update_job-After_example :
    Post (λ _. At 7 (InState (after JobStatus.done))) Never (update_job site 7 (world waiting))
update_job-After_example =
    update_job-After 7 site JobStatus.done (λ calls remote_id. refl) (world waiting)
      (world-At is_remote waiting is_remote-waiting)

plan_job-InState_example :
    At 7
      (InState staging)
      (plan_job (λ text. ok null) (λ v. ok (pos 0)) (λ v. "step") site [] 7 (world staging_in)).1
plan_job-InState_example =
    plan_job-InState (λ text. ok null) (λ v. ok (pos 0)) (λ v. "step") site [] 7 7 staging
      staging-StableTest (world staging_in) (world-At staging staging_in staging-staging_in)

-- The parameters of the front end.
abbrev parse : String → Option String
parse text = some text

abbrev hex : ℕ → String
hex n = "7"

cancel_job_by_id-Single_example :
    Single 7
      (job staging_in_cr)
      (cancel_job_by_id parse "" hex "http://localhost" 7 (store staging_in)).1
    × ((is_final staging_in_cr || cancellation_active staging_in_cr) ≡ true)
cancel_job_by_id-Single_example =
    cancel_job_by_id-Single parse "" hex "http://localhost" 7 (job staging_in) (store staging_in)
      refl

delete_job_by_id-Single_example :
    Single 7
      (mark_deleted (job staging_in_cr))
      (delete_job_by_id parse "" hex "http://localhost" 7 (store staging_in)).1
unfolding delete_job_by_id get_job get_var try_transition state_eq
delete_job_by_id-Single_example =
    delete_job_by_id-Single parse "" hex "http://localhost" 7 (job staging_in) (store staging_in)
      refl refl

post_job-posted_example :
    ((post_job parse "" hex "http://localhost" 8 0 "new" "wf.cwl" "{}" (store staging_in)).0
      ≡ ok (posted parse "" hex "http://localhost" 8 "new" "wf.cwl" "{}"))
    × ((get_job_by_id parse "" hex "http://localhost" 8
          (post_job parse "" hex "http://localhost" 8 0 "new" "wf.cwl" "{}" (store staging_in)).1).0
        ≡ ok (posted parse "" hex "http://localhost" 8 "new" "wf.cwl" "{}"))
    × (get_var
          (λ r. r.state)
          8
          (post_job parse "" hex "http://localhost" 8 0 "new" "wf.cwl" "{}" (store staging_in)).1
        ≡ some submitted)
post_job-posted_example =
    post_job-posted parse "" hex "http://localhost" 8 0 "new" "wf.cwl" "{}" "{}" (store staging_in)
      refl refl

-- The configuration names one user for all kinds, and another one for running jobs.
abbrev user : String → Entries → Entries
user name rest = dict_entry "credentials" (dict (dict_entry "username" (str name) no_entries)) rest

abbrev resource : Value
resource = dict (user "alice" (dict_entry "jobs" (dict (user "bob" no_entries)) no_entries))

abbrev config : Config
config = record { config = dict no_entries; api_config = dict no_entries; cr_config = resource }

get_credential_variable-first_of_example :
    get_credential_variable (λ variable. none) config jobs username ≡ ok (str "bob")
unfolding have_config get_config is_in get_item
get_credential_variable-first_of_example =
    get_credential_variable-first_of (λ variable. none) config jobs username (some (str "bob"))
      (some (str "alice")) (refl, refl) (refl, refl)

nodes_for-bounds_example :
    (nodes : ℕ) × (nodes_for (pos 17) 16 ≡ ok (some nodes))
    × (17 ≤ nodes * 16)
    × (nodes * 16 < 17 + 16)
nodes_for-bounds_example = nodes_for-bounds 17 16 (omega arith) (omega arith)

to_cwl_state_string-is_final_example :
    is_final staging_out
    ≡ not (
        str_eq (to_cwl_state_string staging_out) "Waiting"
        || str_eq (to_cwl_state_string staging_out) "Running")
to_cwl_state_string-is_final_example = to_cwl_state_string-is_final staging_out
