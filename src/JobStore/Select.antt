-- ===== src/JobStore/Select.antt =====
-- What each statement does to the rows that `WHERE job_id = ?` selects.
use simple_cwl_xenon_service.Prelude.{
  ℕ, ◌≡◌, refl, String, List, [], ◌∷◌, ◌++◌, map, arith, ◌==◌, if◌then◌else◌, length, select,
  select-append, not,
}
use simple_cwl_xenon_service.JobState.{JobState, state_eq}
use simple_cwl_xenon_service.JobStore.Table.{Row, new_row}
use simple_cwl_xenon_service.JobStore.{
  Store, has_id, rows, update_where, add_log, create_job, delete_job, set_var, with_state, is_at,
  try_transition,
}

-- An assignment that leaves the id alone.
abbrev pub KeepsId : (Row → Row) → Type 0
KeepsId f = (r : Row) → (f r).job_id ≡ r.job_id

select-update_where :
    (f : Row → Row)
    → KeepsId f
    → (id j : ℕ) (rs : List Row)
    → select (has_id j) (update_where (has_id id) f rs)
      ≡ (if id == j then map f (select (has_id j) rs) else select (has_id j) rs)
select-update_where f keeps id j [] = ground arith
select-update_where f keeps id j (r ∷ rs) =
    ground (arith, keeps r, select-update_where f keeps id j rs)

-- An UPDATE of one id changes exactly the rows of that id.
pub rows-set_var :
    (f : Row → Row)
    → KeepsId f
    → (id j : ℕ) (s : Store)
    → rows j (set_var f id s) ≡ (if id == j then map f (rows j s) else rows j s)
unfolding set_var
rows-set_var f keeps id j s = select-update_where f keeps id j s.jobs

abbrev pub transit : JobState → JobState → Row → Row
transit from to r = if state_eq r.state from then with_state to r else r

select-is_at :
    (from to : JobState) (id j : ℕ) (rs : List Row)
    → select (has_id j) (update_where (is_at id from) (with_state to) rs)
      ≡ (if id == j then map (transit from to) (select (has_id j) rs) else select (has_id j) rs)
select-is_at from to id j [] = ground arith
select-is_at from to id j (r ∷ rs) = ground (arith, select-is_at from to id j rs)

pub rows-try_transition :
    (from to : JobState) (id j : ℕ) (s : Store)
    → rows j (try_transition from to id s).1
      ≡ (if id == j then map (transit from to) (rows j s) else rows j s)
unfolding try_transition
rows-try_transition from to id j s = select-is_at from to id j s.jobs

count-is_at :
    (from : JobState) (id : ℕ) (rs : List Row)
    → select (is_at id from) rs ≡ select (λ r. state_eq r.state from) (select (has_id id) rs)
count-is_at from id [] = refl
count-is_at from id (r ∷ rs) = ground (arith, count-is_at from id rs)

pub try_transition-done :
    (from to : JobState) (id : ℕ) (s : Store)
    → (try_transition from to id s).0
      ≡ (length (select (λ r. state_eq r.state from) (rows id s)) == 1)
unfolding try_transition
try_transition-done from to id s = rw (count-is_at from id s.jobs)

pub rows-add_log :
    (id level : ℕ) (clock : ℕ → ℕ) (n j : ℕ) (message : List String) (s : Store)
    → rows j (add_log id level clock n message s) ≡ rows j s
unfolding add_log
rows-add_log id level clock n j message s = refl

pub rows-create_job :
    (id time j : ℕ) (name workflow job_input : String) (s : Store)
    → rows j (create_job id time name workflow job_input s)
      ≡ rows j s ++ (if id == j then new_row id name workflow job_input ∷ [] else [])
unfolding create_job
rows-create_job id time j name workflow job_input s =
    rw (select-append (has_id j) s.jobs (new_row id name workflow job_input ∷ []))

select-delete :
    (id j : ℕ) (rs : List Row)
    → select (has_id j) (select (λ r. not (has_id id r)) rs)
      ≡ (if id == j then [] else select (has_id j) rs)
select-delete id j [] = ground arith
select-delete id j (r ∷ rs) = ground (arith, select-delete id j rs)

-- A DELETE of one id removes exactly the rows of that id.
pub rows-delete_job :
    (id j : ℕ) (s : Store) → rows j (delete_job id s) ≡ (if id == j then [] else rows j s)
unfolding delete_job
rows-delete_job id j s = select-delete id j s.jobs
