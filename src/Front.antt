-- ===== src/Front.antt =====
-- cerise/front_end/controllers/default_controller.py: the request handlers of the REST interface.
-- `json.loads` and the hexadecimal rendering of an id are parameters.
pub mod Steps
pub mod Cancel
pub mod Requests
use Prim.Native.String.{◌++◌}
use simple_cwl_xenon_service.Prelude.{
  ℕ, String, Bool, true, Option, none, some, List, [], ◌∷◌, if◌then◌else◌,
}
use simple_cwl_xenon_service.Exception.{
  Outcome, ok, raised, ◌>>=◌, or_raise, job_not_found, not_found_404, type_error, value_error, Exn,
}
use simple_cwl_xenon_service.JobState.{
  JobState, submitted, staging_in, waiting, running, finished, staging_out, staging_in_cr,
  waiting_cr, running_cr, staging_out_cr, cancelled, to_cwl_state_string,
}
use simple_cwl_xenon_service.JobStore.{
  Store, get_job, get_var, set_var, try_transition, create_job, list_jobs, job_log_rows,
}
use simple_cwl_xenon_service.JobStore.Table.{Row, LogRow}
use text.Mathlib.Text.{◌==◌ as str_eq}

abbrev pub transition : JobState → JobState → ℕ → Store → Store
transition from to id s = (try_transition from to id s).1

-- The six transitions that `cancel_job_by_id` tries, in its order.
unfoldable pub cancel_transitions : ℕ → Store → Store
cancel_transitions id s =
    let s = transition submitted cancelled id s in
    let s = transition staging_in staging_in_cr id s in
    let s = transition waiting waiting_cr id s in
    let s = transition running running_cr id s in
    let s = transition finished cancelled id s in transition staging_out staging_out_cr id s

abbrev pub mark_deleted : Row → Row
mark_deleted r = record r { please_delete = true }

-- A handler returns its reply, or the exception that leaves it, and the store.
abbrev pub Handler : Type 0 → Type 0
Handler A = Store → Outcome A × Store

-- The class Job of front_end/models/job.py, as the handlers fill it.
pub record RestJob (Json : Type 0) : Type 0 where
  pub id : ℕ
  pub name : String
  pub workflow : String
  pub input : Json
  pub state : String
  pub output : Json
  pub log : String

module _ {Json : Type 0} (loads : String → Option Json) (no_output : Json) (hex : ℕ → String)
    (base_url : String) where
  abbrev parse : String → Outcome Json
  parse text = or_raise (loads text) (value_error none)

  abbrev column : {A : Type 0} → (Row → A) → ℕ → Store → Outcome A
  column field id s = or_raise (get_var field id s) type_error

  unfoldable pub internal_job_to_rest_job : ℕ → Store → Outcome (RestJob Json)
  internal_job_to_rest_job id s = do
    local_output ← column (λ r. r.local_output) id s
    output ← if str_eq local_output "" then ok no_output else parse local_output
    local_input ← column (λ r. r.local_input) id s
    input ← parse local_input
    name ← column (λ r. r.name) id s
    workflow ← column (λ r. r.workflow) id s
    state ← column (λ r. r.state) id s
    ok (record {
      id = id;
      name = name;
      workflow = workflow;
      input = input;
      state = to_cwl_state_string state;
      output = output;
      log = base_url ++ ("/jobs/" ++ (hex id ++ "/log"));
    })

  unfoldable pub get_job_by_id : ℕ → Handler (RestJob Json)
  unfolding internal_job_to_rest_job
  get_job_by_id id s = elim (get_job id s) [
    | none ↦ (raised not_found_404, s)
    | some job ↦ (internal_job_to_rest_job job s, s)
  ]

  -- `get_job` stands outside any `try` here: JobNotFound leaves the handler.
  unfoldable pub cancel_job_by_id : ℕ → Handler (RestJob Json)
  unfolding cancel_transitions get_job_by_id
  cancel_job_by_id id s = elim (get_job id s) [
    | none ↦ (raised job_not_found, s)
    | some job ↦ get_job_by_id id (cancel_transitions job s)
  ]

  abbrev pub after_cancel : ℕ → Outcome (RestJob Json) × Store → Outcome Unit × Store
  after_cancel id (raised e, s) = (raised e, s)
  after_cancel id (ok _, s) = elim (get_job id s) [
    | none ↦ (raised job_not_found, s)
    | some job ↦ (ok tt, set_var mark_deleted job s)
  ]

  unfoldable pub delete_job_by_id : ℕ → Handler Unit
  unfolding cancel_job_by_id
  delete_job_by_id id s = after_cancel id (cancel_job_by_id id s)

  unfoldable pub get_job_log_by_id : ℕ → Handler (List LogRow)
  get_job_log_by_id id s = elim (get_job id s) [
    | none ↦ (raised not_found_404, s)
    | some job ↦ (ok (job_log_rows job s), s)
  ]

  rest_jobs : List ℕ → Store → Outcome (List (RestJob Json))
  rest_jobs [] s = ok []
  rest_jobs (id ∷ ids) s = do
    job ← internal_job_to_rest_job id s
    jobs ← rest_jobs ids s
    ok (job ∷ jobs)

  unfoldable pub get_jobs : Handler (List (RestJob Json))
  unfolding rest_jobs internal_job_to_rest_job
  get_jobs s = (rest_jobs (list_jobs s) s, s)

  abbrev pub created : Option ℕ → Store → Outcome (RestJob Json) × Store
  created none s = (raised job_not_found, s)
  created (some job) s = (internal_job_to_rest_job job s, s)

  -- `uuid` is the id that `uuid4` draws, `time` the clock's reading, and `job_input` the
  -- description's input as `json.dumps` writes it.
  unfoldable pub post_job : ℕ → ℕ → String → String → String → Handler (RestJob Json)
  unfolding internal_job_to_rest_job
  post_job uuid time name workflow job_input s =
      let s' = create_job uuid time name workflow job_input s in created (get_job uuid s') s'
