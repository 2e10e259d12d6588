-- ===== src/JobStore.antt =====
-- cerise/job_store/sqlite_job_store.py and sqlite_job.py: the tables `jobs` and `job_log`, and the
-- statements that the classes SQLiteJobStore and SQLiteJob run on them. A job id is the number that
-- `uuid4().hex` writes in hexadecimal; ids are only compared. One function here is one committed
-- statement (or one committed group of statements): it is atomic.
pub mod Table
pub mod Select
pub mod Single
pub mod Pool
use simple_cwl_xenon_service.Prelude.{
  ℕ, suc, String, Bool, false, ◌&&◌, Option, none, some, List, [], ◌∷◌, ◌++◌, map, ◌==◌, ltb,
  if◌then◌else◌, length, select, not,
}
use simple_cwl_xenon_service.JobState.{JobState, submitted, state_eq}
use Table.{Row, LogRow, new_row}

-- The database.
pub record Store : Type 0 where
  pub jobs : List Row
  pub job_log : List LogRow

abbrev pub empty : Store
empty = record { jobs = []; job_log = [] }

-- `WHERE job_id = ?`
abbrev pub has_id : ℕ → Row → Bool
has_id id r = r.job_id == id

abbrev pub logged_for : ℕ → LogRow → Bool
logged_for id l = l.job_id == id

-- `SELECT * FROM jobs WHERE job_id = ?`
abbrev pub rows : ℕ → Store → List Row
rows id s = select (has_id id) s.jobs

-- `UPDATE jobs SET ... WHERE p`
abbrev pub update_where : (Row → Bool) → (Row → Row) → List Row → List Row
update_where p f [] = []
update_where p f (r ∷ rs) = (if p r then f r else r) ∷ update_where p f rs

-- `INSERT INTO job_log`, a row for each message.
-- Each reads the clock: `clock n` is the reading number `n`.
abbrev pub log_rows : ℕ → ℕ → (ℕ → ℕ) → ℕ → List String → List LogRow
log_rows id level clock n [] = []
log_rows id level clock n (m ∷ ms) =
    record { job_id = id; level = level; time = clock n; message = m }
    ∷ log_rows id level clock (suc n) ms

-- `logging.DEBUG`, `logging.INFO`, `logging.ERROR`
abbrev pub level_debug : ℕ
level_debug = 10

abbrev pub level_info : ℕ
level_info = 20

abbrev pub level_error : ℕ
level_error = 40

-- `SQLiteJob.add_log`
unfoldable pub add_log : ℕ → ℕ → (ℕ → ℕ) → ℕ → List String → Store → Store
add_log id level clock n message s = record s {
  job_log = s.job_log ++ log_rows id level clock n message;
}

-- `SQLiteJobStore.create_job`, with the id that `uuid4` drew.
unfoldable pub create_job : ℕ → ℕ → String → String → String → Store → Store
create_job id time name workflow job_input s = record {
  jobs = s.jobs ++ new_row id name workflow job_input ∷ [];
  job_log = s.job_log ++ log_rows id level_info (λ _. time) 0 ("Submitted job" ∷ []);
}

-- `SQLiteJobStore.list_jobs`: a SQLiteJob is its id.
unfoldable pub list_jobs : Store → List ℕ
list_jobs s = map (λ r. r.job_id) s.jobs

-- `SQLiteJobStore.get_job`; `none` is JobNotFound.
unfoldable pub get_job : ℕ → Store → Option ℕ
get_job id s = if length (rows id s) == 0 then none else some id

-- `SQLiteJobStore.delete_job`
unfoldable pub delete_job : ℕ → Store → Store
delete_job id s = record {
  jobs = select (λ r. not (has_id id r)) s.jobs;
  job_log = select (λ l. not (logged_for id l)) s.job_log;
}

-- `SQLiteJob._get_var`: `fetchone()[0]`, where `none` is the TypeError on a missing row.
abbrev pub first_var {ℓ} : {A : Type ℓ} → (Row → A) → List Row → Option A
first_var column [] = none
first_var column (r ∷ _) = some (column r)

unfoldable pub get_var {ℓ} : {A : Type ℓ} → (Row → A) → ℕ → Store → Option A
get_var column id s = first_var column (rows id s)

-- `SQLiteJob._set_var`, with the assignment as a function on rows.
unfoldable pub set_var : (Row → Row) → ℕ → Store → Store
set_var assign id s = record s { jobs = update_where (has_id id) assign s.jobs }

abbrev pub with_state : JobState → Row → Row
with_state state r = record r { state = state }

-- `SQLiteJob.state`, the setter.
unfoldable pub set_state : JobState → ℕ → Store → Store
unfolding set_var
set_state value id s = set_var (with_state value) id s

-- `WHERE job_id = ? AND state = ?`
abbrev pub is_at : ℕ → JobState → Row → Bool
is_at id from r = has_id id r && state_eq r.state from

-- `SQLiteJob.try_transition`: the number of rows updated tells whether it took place.
unfoldable pub try_transition : JobState → JobState → ℕ → Store → Bool × Store
try_transition from to id s = (
  length (select (is_at id from) s.jobs) == 1,
  record s { jobs = update_where (is_at id from) (with_state to) s.jobs },
)

-- The rows of `SQLiteJob.log`, in the order of `ORDER BY time ASC`, where rows of one time keep the
-- order in which they were written.
abbrev pub insert_by_time : LogRow → List LogRow → List LogRow
insert_by_time l [] = l ∷ []
insert_by_time l (m ∷ ms) = if ltb m.time l.time then m ∷ insert_by_time l ms else l ∷ m ∷ ms

abbrev pub sort_by_time : List LogRow → List LogRow
sort_by_time [] = []
sort_by_time (l ∷ ls) = insert_by_time l (sort_by_time ls)

unfoldable pub job_log_rows : ℕ → Store → List LogRow
job_log_rows id s = sort_by_time (select (logged_for id) s.job_log)
