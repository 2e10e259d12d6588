-- ===== src/World/Gone.antt =====
-- A job that has no row, and that the front end will not create again.
use simple_cwl_xenon_service.Prelude.{ℕ, ◌≡◌, refl, ◌≢◌, String, List, [], ◌∷◌, arith}
use simple_cwl_xenon_service.JobState.{JobState}
use simple_cwl_xenon_service.JobStore.{Store, rows, set_var, create_job, delete_job, try_transition}
use simple_cwl_xenon_service.JobStore.Table.{Row}
use simple_cwl_xenon_service.JobStore.Select.{
  KeepsId, rows-set_var, rows-try_transition, rows-create_job, rows-delete_job,
}
use simple_cwl_xenon_service.Front.{mark_deleted}
use simple_cwl_xenon_service.Front.Steps.{
  source, target, FrontStep, create, cancel, please_delete, apply_step, run_steps, Apart,
}
use simple_cwl_xenon_service.World.{World, take_batch, interfere}
use simple_cwl_xenon_service.World.At.{ApartAll}

abbrev pub NoRow : ℕ → Store → Type 0
NoRow id s = rows id s ≡ []

-- The job has no row, and the front end will not create it again.
pub record Gone (id : ℕ) (w : World) : Type 0 where
  pub no_row : NoRow id w.store
  pub apart : ApartAll id w.env

module _ (id : ℕ) (s : Store) (h : NoRow id s) where
  pub NoRow-set_var : (f : Row → Row) → KeepsId f → (j : ℕ) → NoRow id (set_var f j s)
  NoRow-set_var f keeps j = rw (rows-set_var f keeps j id s, h) (ground arith)

  pub NoRow-try_transition : (from to : JobState) (j : ℕ) → NoRow id (try_transition from to j s).1
  NoRow-try_transition from to j = rw (rows-try_transition from to j id s, h) (ground arith)

  pub NoRow-delete_job : (j : ℕ) → NoRow id (delete_job j s)
  NoRow-delete_job j = rw (rows-delete_job j id s, h) (ground arith)

  NoRow-create_job :
      (uuid time : ℕ) (name workflow job_input : String)
      → uuid ≢ id
      → NoRow id (create_job uuid time name workflow job_input s)
  NoRow-create_job uuid time name workflow job_input ne =
      rw (rows-create_job uuid time id name workflow job_input s, h) (ground arith)

run_steps-NoRow :
    (id : ℕ) (steps : List FrontStep) (s : Store)
    → Apart id steps
    → NoRow id s
    → NoRow id (run_steps steps s)
unfolding run_steps apply_step
run_steps-NoRow id [] s apart h = h
run_steps-NoRow id (create uuid time name workflow job_input ∷ steps) s apart h =
    run_steps-NoRow id steps _ apart.1
      (NoRow-create_job id s h uuid time name workflow job_input apart.0)
run_steps-NoRow id (cancel c j ∷ steps) s apart h =
    run_steps-NoRow id steps _ apart (NoRow-try_transition id s h (source c) (target c) j)
run_steps-NoRow id (please_delete j ∷ steps) s apart h =
    run_steps-NoRow id steps _ apart (NoRow-set_var id s h mark_deleted (λ r. refl) j)

take_batch-Gone :
    (id : ℕ) (env : List (List FrontStep)) (w : World)
    → ApartAll id env
    → Gone id w
    → Gone id (take_batch env w)
take_batch-Gone id [] w apart g = g
take_batch-Gone id (batch ∷ rest) w apart g = record {
  no_row = run_steps-NoRow id batch w.store apart.0 g.no_row;
  apart = apart.1;
}

-- Whatever the front end does before a statement, the job is still gone.
pub interfere-Gone : (id : ℕ) (w : World) → Gone id w → Gone id (interfere w)
unfolding interfere
interfere-Gone id w g = take_batch-Gone id w.env w g.apart g
