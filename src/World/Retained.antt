-- ===== src/World/Retained.antt =====
-- A job whose row is there, and whose deletion nobody has asked for or will ask for.
use simple_cwl_xenon_service.Prelude.{
  ℕ, ◌≡◌, refl, ◌≢◌, inl, inr, Bool, false, String, List, [], ◌∷◌, arith,
}
use simple_cwl_xenon_service.JobState.{JobState}
use simple_cwl_xenon_service.JobStore.{Store, set_var, create_job, delete_job, try_transition}
use simple_cwl_xenon_service.JobStore.Table.{Row}
use simple_cwl_xenon_service.JobStore.Select.{KeepsId, transit}
use simple_cwl_xenon_service.JobStore.Single.{
  Single-set_var, Single-set_var_ne, Single-try_transition, Single-try_transition_ne,
  Single-create_job, Single-delete_job_ne,
}
use simple_cwl_xenon_service.Front.{mark_deleted}
use simple_cwl_xenon_service.Front.Steps.{
  source, target, FrontStep, create, cancel, please_delete, apply_step, run_steps,
}
use simple_cwl_xenon_service.World.{World, take_batch, interfere}
use simple_cwl_xenon_service.World.At.{Holds, same_or_ne}

-- No step of the list asks to delete the job, and none creates it again.
abbrev pub Unasked : ℕ → List FrontStep → Type 0
Unasked id [] = Unit
Unasked id (create uuid time name workflow job_input ∷ steps) = (uuid ≢ id) × Unasked id steps
Unasked id (cancel c j ∷ steps) = Unasked id steps
Unasked id (please_delete j ∷ steps) = (j ≢ id) × Unasked id steps

abbrev pub UnaskedAll : ℕ → List (List FrontStep) → Type 0
UnaskedAll id [] = Unit
UnaskedAll id (batch ∷ rest) = Unasked id batch × UnaskedAll id rest

-- What the client sent when the job was posted.
pub record Submission : Type 0 where
  pub name : String
  pub workflow : String
  pub local_input : String

-- The columns that the front end writes, other than the state.
abbrev pub request : Row → Submission × Bool
request r =
    (record { name = r.name; workflow = r.workflow; local_input = r.local_input }, r.please_delete)

-- The row has what the client sent, and its deletion is not asked for.
abbrev pub NotAsked : Submission → Row → Type 0
NotAsked sent r = request r ≡ (sent, false)

-- The job has one row, with what the client sent, in which its deletion is not asked for, and the front
-- end will not ask for it.
pub record Retained (id : ℕ) (sent : Submission) (w : World) : Type 0 where
  pub row : Holds id (NotAsked sent) w.store
  pub unasked : UnaskedAll id w.env

-- An assignment that leaves the column `job_id` and those of the request alone.
pub record KeepsRequest (f : Row → Row) : Type 0 where
  pub keeps_id : KeepsId f
  pub keeps_request : (r : Row) → request (f r) ≡ request r

transit-NotAsked :
    (sent : Submission) (from to : JobState) (r : Row)
    → NotAsked sent r
    → NotAsked sent (transit from to r)
transit-NotAsked sent from to r h = ground arith

module _ (id : ℕ) (sent : Submission) (s : Store) (holds : Holds id (NotAsked sent) s) where
  pub set_var-NotAsked :
      (f : Row → Row) → KeepsRequest f → (j : ℕ) → Holds id (NotAsked sent) (set_var f j s)
  set_var-NotAsked f keeps j =
      let (r, one, h) = holds in
      elim (same_or_ne j id) [
        | inl e ↦
            rw e (f r, Single-set_var id r s one f keeps.keeps_id, rw (keeps.keeps_request r) h)
        | inr ne ↦ (r, Single-set_var_ne id r s one f keeps.keeps_id j ne, h)
      ]

  pub try_transition-NotAsked :
      (from to : JobState) (j : ℕ) → Holds id (NotAsked sent) (try_transition from to j s).1
  try_transition-NotAsked from to j =
      let (r, one, h) = holds in
      elim (same_or_ne j id) [
        | inl e ↦ rw e (
          transit from to r,
          Single-try_transition id r s one from to,
          transit-NotAsked sent from to r h,
        )
        | inr ne ↦ (r, Single-try_transition_ne id r s one from to j ne, h)
      ]

  pub delete_job-NotAsked : (j : ℕ) → j ≢ id → Holds id (NotAsked sent) (delete_job j s)
  delete_job-NotAsked j ne = let (r, one, h) = holds in (r, Single-delete_job_ne id r s one j ne, h)

  create_job-NotAsked :
      (uuid time : ℕ) (name workflow job_input : String)
      → uuid ≢ id
      → Holds id (NotAsked sent) (create_job uuid time name workflow job_input s)
  create_job-NotAsked uuid time name workflow job_input ne =
      let (r, one, h) = holds in
      (r, Single-create_job id r s one uuid time name workflow job_input ne, h)

  mark_deleted-NotAsked : (j : ℕ) → j ≢ id → Holds id (NotAsked sent) (set_var mark_deleted j s)
  mark_deleted-NotAsked j ne =
      let (r, one, h) = holds in (r, Single-set_var_ne id r s one mark_deleted (λ r. refl) j ne, h)

run_steps-NotAsked :
    (id : ℕ) (sent : Submission) (steps : List FrontStep) (s : Store)
    → Unasked id steps
    → Holds id (NotAsked sent) s
    → Holds id (NotAsked sent) (run_steps steps s)
unfolding run_steps apply_step
run_steps-NotAsked id sent [] s unasked h = h
run_steps-NotAsked id sent (create uuid time name workflow job_input ∷ steps) s unasked h =
    run_steps-NotAsked id sent steps _ unasked.1
      (create_job-NotAsked id sent s h uuid time name workflow job_input unasked.0)
run_steps-NotAsked id sent (cancel c j ∷ steps) s unasked h =
    run_steps-NotAsked id sent steps _ unasked
      (try_transition-NotAsked id sent s h (source c) (target c) j)
run_steps-NotAsked id sent (please_delete j ∷ steps) s unasked h =
    run_steps-NotAsked id sent steps _ unasked.1 (mark_deleted-NotAsked id sent s h j unasked.0)

take_batch-Retained :
    (id : ℕ) (sent : Submission) (env : List (List FrontStep)) (w : World)
    → UnaskedAll id env
    → Retained id sent w
    → Retained id sent (take_batch env w)
take_batch-Retained id sent [] w unasked h = h
take_batch-Retained id sent (batch ∷ rest) w unasked h = record {
  row = run_steps-NotAsked id sent batch w.store unasked.0 h.row;
  unasked = unasked.1;
}

-- Whatever else the front end does before a statement, the job is still retained.
pub interfere-Retained :
    (id : ℕ) (sent : Submission) (w : World) → Retained id sent w → Retained id sent (interfere w)
unfolding interfere
interfere-Retained id sent w h = take_batch-Retained id sent w.env w h.unasked h
