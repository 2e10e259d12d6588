-- ===== src/Front/Steps.antt =====
-- What the front end does to the store, as the single statements of which its handlers consist. A
-- sequence of such steps is what any number of front-end threads may do between two statements of
-- the back end.
use simple_cwl_xenon_service.Prelude.{ℕ, ◌≡◌, ◌≢◌, refl, String, List, [], ◌∷◌}
use simple_cwl_xenon_service.JobState.{
  JobState, submitted, staging_in, waiting, running, finished, staging_out, staging_in_cr,
  waiting_cr, running_cr, staging_out_cr, cancelled,
}
use simple_cwl_xenon_service.JobStore.{Store, create_job, set_var}
use simple_cwl_xenon_service.Front.{transition, cancel_transitions, mark_deleted}

-- The statements `job.try_transition(from, to)` of `cancel_job_by_id`.
pub data Cancellation : Type 0 where
  of_submitted of_staging_in of_waiting of_running of_finished of_staging_out : Cancellation

abbrev pub source : Cancellation → JobState
source of_submitted = submitted
source of_staging_in = staging_in
source of_waiting = waiting
source of_running = running
source of_finished = finished
source of_staging_out = staging_out

abbrev pub target : Cancellation → JobState
target of_submitted = cancelled
target of_staging_in = staging_in_cr
target of_waiting = waiting_cr
target of_running = running_cr
target of_finished = cancelled
target of_staging_out = staging_out_cr

pub data FrontStep : Type 0 where
  create : (uuid time : ℕ) → (name workflow job_input : String) → FrontStep
  cancel : Cancellation → ℕ → FrontStep
  please_delete : ℕ → FrontStep

unfoldable pub apply_step : FrontStep → Store → Store
apply_step (create uuid time name workflow job_input) s =
    create_job uuid time name workflow job_input s
apply_step (cancel c id) s = transition (source c) (target c) id s
apply_step (please_delete id) s = set_var mark_deleted id s

unfoldable pub run_steps : List FrontStep → Store → Store
unfolding apply_step
run_steps [] s = s
run_steps (step ∷ steps) s = run_steps steps (apply_step step s)

abbrev pub cancel_steps : ℕ → List FrontStep
cancel_steps id =
    cancel of_submitted id
    ∷ cancel of_staging_in id
    ∷ cancel of_waiting id
    ∷ cancel of_running id
    ∷ cancel of_finished id
    ∷ cancel of_staging_out id
    ∷ []

-- A cancel request is a sequence of such steps.
pub cancel_transitions-eq-run_steps :
    (id : ℕ) (s : Store) → cancel_transitions id s ≡ run_steps (cancel_steps id) s
unfolding cancel_transitions run_steps
cancel_transitions-eq-run_steps id s = refl

-- `uuid4` does not draw the id of a job that is there: no step of the list creates `id` again.
abbrev pub Apart : ℕ → List FrontStep → Type 0
Apart id [] = Unit
Apart id (create uuid time name workflow job_input ∷ steps) = (uuid ≢ id) × Apart id steps
Apart id (cancel c j ∷ steps) = Apart id steps
Apart id (please_delete j ∷ steps) = Apart id steps
