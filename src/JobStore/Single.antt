-- ===== src/JobStore/Single.antt =====
-- The statements on a job that has exactly one row, as every job has whose id `uuid4` drew once.
use simple_cwl_xenon_service.Prelude.{ℕ, ◌≡◌, refl, ◌≢◌, some, String, [], ◌∷◌, arith, ==_refl}
use simple_cwl_xenon_service.JobState.{JobState, state_eq}
use simple_cwl_xenon_service.JobStore.Table.{Row}
use simple_cwl_xenon_service.JobStore.Select.{
  KeepsId, transit, rows-set_var, rows-try_transition, try_transition-done, rows-create_job,
  rows-delete_job,
}
use simple_cwl_xenon_service.JobStore.{
  Store, rows, get_job, get_var, set_var, create_job, delete_job, try_transition,
}

-- The job `id` has the one row `r`.
abbrev pub Single : ℕ → Row → Store → Type 0
Single id r s = rows id s ≡ r ∷ []

module _ (id : ℕ) (r : Row) (s : Store) (h : Single id r s) where
  pub Single-set_var : (f : Row → Row) → KeepsId f → Single id (f r) (set_var f id s)
  Single-set_var f keeps = rw (rows-set_var f keeps id id s, ==_refl id, h) refl

  pub Single-try_transition :
      (from to : JobState) → Single id (transit from to r) (try_transition from to id s).1
  Single-try_transition from to = rw (rows-try_transition from to id id s, ==_refl id, h) refl

  pub done-Single : (from to : JobState) → (try_transition from to id s).0 ≡ state_eq r.state from
  done-Single from to = rw (try_transition-done from to id s, h) (ground arith)

  pub get_job-Single : get_job id s ≡ some id
  unfolding get_job
  get_job-Single = rw h refl

  pub get_var-Single {ℓ} : {A : Type ℓ} (column : Row → A) → get_var column id s ≡ some (column r)
  unfolding get_var
  get_var-Single column = rw h refl

  pub Single-create_job :
      (uuid time : ℕ) (name workflow job_input : String)
      → uuid ≢ id
      → Single id r (create_job uuid time name workflow job_input s)
  Single-create_job uuid time name workflow job_input ne =
      rw (rows-create_job uuid time id name workflow job_input s, h) (ground arith)

  -- A statement about another job leaves the row alone.
  pub Single-set_var_ne :
      (f : Row → Row) (keeps : KeepsId f) (j : ℕ) → j ≢ id → Single id r (set_var f j s)
  Single-set_var_ne f keeps j ne = rw (rows-set_var f keeps j id s, h) (ground arith)

  pub Single-try_transition_ne :
      (from to : JobState) (j : ℕ) → j ≢ id → Single id r (try_transition from to j s).1
  Single-try_transition_ne from to j ne = rw (rows-try_transition from to j id s, h) (ground arith)

  pub Single-delete_job_ne : (j : ℕ) → j ≢ id → Single id r (delete_job j s)
  Single-delete_job_ne j ne = rw (rows-delete_job j id s, h) (ground arith)

-- On a job with one row, `try_transition` answers whether the row was in the state `from`; if it was,
-- the row is now in `to` and otherwise as before, and if it was not, the row is as before.
try_transition-Single :
    (id : ℕ) (r : Row) (s : Store)
    → Single id r s
    → (from to : JobState)
    → ((try_transition from to id s).0 ≡ state_eq r.state from)
      × Single id (transit from to r) (try_transition from to id s).1
try_transition-Single id r s h from to =
    (done-Single id r s h from to, Single-try_transition id r s h from to)
