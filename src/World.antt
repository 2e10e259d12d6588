-- ===== src/World.antt =====
-- The back end as a sequence of statements. The back end is one thread of its own process; it shares
-- the database with the front end. `env` lists what the front end does: before each statement of the
-- back end on the database the next batch of front-end statements runs, so a theorem for every `env`
-- holds for every interleaving. `calls` is the history of the calls to the outside, newest first; the
-- replies of the outside are functions of it (`Site`).
pub mod At
pub mod Gone
pub mod Retained
pub mod Quiet
pub mod Keeps
pub mod Triple
pub mod Known
pub mod Frame
use simple_cwl_xenon_service.Prelude.{
  ℕ, suc, ◌+◌, String, Bool, true, false, Option, none, some, List, [], ◌∷◌, length,
}
use simple_cwl_xenon_service.Prelude.Int.{ℤ}
use simple_cwl_xenon_service.Exception.{
  Exn, Outcome, ok, raised, or_raise, type_error, job_not_found,
}
use simple_cwl_xenon_service.JobState.{JobState}
use simple_cwl_xenon_service.JobStore.{
  Store, get_job, get_var, set_var, set_state, try_transition, add_log, delete_job, list_jobs,
}
use simple_cwl_xenon_service.JobStore.Table.{Row}
use simple_cwl_xenon_service.FileSystem.{FileCall}
use simple_cwl_xenon_service.Front.Steps.{FrontStep, run_steps}

-- `cerulean.JobStatus`, as far as the code tells its members apart: RUNNING, DONE, and any other one
-- (a job that waits in the queue).
pub data JobStatus : Type 0 where
  running done other : JobStatus

-- The fields of a `cerulean.JobDescription` that `start_job` sets; `none` where it leaves the default.
pub record JobDescription : Type 0 where
  pub working_directory : String
  pub command : String
  pub arguments : List String
  pub stdout_file : String
  pub stderr_file : String
  pub system_out_file : String
  pub system_err_file : String
  pub time_reserved : Option ℕ
  pub num_nodes : Option ℕ
  pub mpi_processes_per_node : Option ℕ
  pub queue_name : Option String
  pub extra_scheduler_options : Option String

-- A command that the installation of the API runs on the compute resource, without a time limit.
pub record Command : Type 0 where
  pub command : String
  pub arguments : List String
  pub environment : List (String × String)
  pub stdout_file : Option String
  pub stderr_file : Option String

pub data Call : Type 0 where
  get_status : Option String → Call
  cancel : Option String → Call
  submit : JobDescription → Call
  submit_command : Command → Call
  wait : String → Call
  access : FileCall → Call

-- The scheduler, the clock and the file systems, which are not part of the program.
pub record Site : Type 0 where
  pub time : ℕ → ℕ
  pub status_reply : List Call → Option String → Outcome JobStatus
  pub cancel_reply : List Call → Option String → Outcome JobStatus
  pub submit_reply : List Call → JobDescription → Outcome String
  pub done_reply : List Call → FileCall → Outcome Unit
  pub test_reply : List Call → FileCall → Outcome Bool
  pub text_reply : List Call → FileCall → Outcome String
  pub names_reply : List Call → FileCall → Outcome (List String)
  pub command_reply : List Call → Command → Outcome String
  pub wait_reply : List Call → String → Outcome ℤ
  pub walk_reply : List Call → FileCall → Outcome (List (String × List String))

-- `have_running_jobs`, `job` and `previous_state` are the local variables of `_process_jobs`: they
-- stand here because its exception handlers read what the body had assigned. `update_available` and
-- `shutting_down` are fields of the ExecutionManager; `signals` tells, for each time that the loop
-- looks at `shutting_down`, whether a signal to shut down arrived since.
pub record World : Type 0 where
  pub store : Store
  pub env : List (List FrontStep)
  pub ticks : ℕ
  pub calls : List Call
  pub update_available : Bool
  pub shutting_down : Bool
  pub signals : List Bool
  pub have_running_jobs : Bool
  pub job : Option ℕ
  pub previous_state : Option JobState

-- A call that returns or raises. What was written before a raise stays written.
abbrev pub M : Type 0 → Type 0
M A = World → Outcome A × World

module _ {A : Type 0} where
  abbrev pub pure : A → M A
  pure a w = (ok a, w)

  abbrev pub raise : Exn → M A
  raise e w = (raised e, w)

  abbrev pub lift : Outcome A → M A
  lift r w = (r, w)

module _ {A B : Type 0} where
  abbrev pub continue : (A → M B) → Outcome A × World → Outcome B × World
  continue f (ok a, w) = f a w
  continue f (raised e, w) = (raised e, w)

  infixl 5 ◌>>=◌ ◌>>◌
  abbrev pub ◌>>=◌ : M A → (A → M B) → M B
  ◌>>=◌ m f w = continue f (m w)

  abbrev pub ◌>>◌ : M A → M B → M B
  m >> n = m >>= λ _. n

-- `if not b: m`
abbrev pub unless : Bool → M Unit → M Unit
unless true m = pure tt
unless false m = m

module _ {A : Type 0} where
  abbrev pub handle : (Exn → M A) → Outcome A × World → Outcome A × World
  handle f (ok a, w) = (ok a, w)
  handle f (raised e, w) = f e w

  -- `try: m except ...: f`
  abbrev pub try_except : M A → (Exn → M A) → M A
  try_except m f w = handle f (m w)

-- The front end's next batch.
abbrev pub take_batch : List (List FrontStep) → World → World
take_batch [] w = w
take_batch (batch ∷ rest) w = record w { store = run_steps batch w.store; env = rest }

unfoldable pub interfere : World → World
interfere w = take_batch w.env w

-- One statement on the database, after what the front end does before it.
module _ {A : Type 0} where
  abbrev pub after_front : (Store → Outcome A × Store) → World → Outcome A × World
  after_front f w = let (r, s) = f w.store in (r, record w { store = s })

  unfoldable pub statement : (Store → Outcome A × Store) → M A
  statement f w = after_front f (interfere w)

abbrev reading : {A : Type 0} → (Store → Outcome A) → Store → Outcome A × Store
reading f s = (f s, s)

abbrev pub writing : (Store → Store) → Store → Outcome Unit × Store
writing f s = (ok tt, f s)

unfoldable pub find_job : ℕ → M ℕ
find_job id = statement (reading (λ s. or_raise (get_job id s) job_not_found))

unfoldable pub find_jobs : M (List ℕ)
find_jobs = statement (reading (λ s. ok (list_jobs s)))

unfoldable pub read : {A : Type 0} → (Row → A) → ℕ → M A
read column id = statement (reading (λ s. or_raise (get_var column id s) type_error))

unfoldable pub write : (Row → Row) → ℕ → M Unit
write assign id = statement (writing (set_var assign id))

unfoldable pub remove : ℕ → M Unit
remove id = statement (writing (delete_job id))

unfoldable pub write_state : JobState → ℕ → M Unit
write_state state id = statement (writing (set_state state id))

abbrev counted : Bool × Store → Outcome Bool × Store
counted (success, s) = (ok success, s)

unfoldable pub attempt : JobState → JobState → ℕ → M Bool
attempt from to id = statement (λ s. counted (try_transition from to id s))

module _ (site : Site) where
  -- `job.add_log`, which reads the clock once for each message.
  unfoldable pub log : ℕ → ℕ → List String → M Unit
  log id level message w =
      let (r, w') = statement (writing (add_log id level site.time w.ticks message)) w in
      (r, record w' { ticks = w'.ticks + length message })

  unfoldable pub sched_get_status : Option String → M JobStatus
  sched_get_status id w =
      (site.status_reply w.calls id, record w { calls = get_status id ∷ w.calls })

  unfoldable pub sched_cancel : Option String → M JobStatus
  sched_cancel id w = (site.cancel_reply w.calls id, record w { calls = cancel id ∷ w.calls })

  unfoldable pub sched_submit : JobDescription → M String
  sched_submit desc w = (site.submit_reply w.calls desc, record w { calls = submit desc ∷ w.calls })

  unfoldable pub sched_submit_command : Command → M String
  sched_submit_command job w =
      (site.command_reply w.calls job, record w { calls = submit_command job ∷ w.calls })

  -- The exit code of a job that has ended.
  unfoldable pub sched_wait : String → M ℤ
  sched_wait id w = (site.wait_reply w.calls id, record w { calls = wait id ∷ w.calls })

-- A call on a path, with the replies for its type.
unfoldable pub ask : {A : Type 0} → (List Call → FileCall → Outcome A) → FileCall → M A
ask reply call w = (reply w.calls call, record w { calls = access call ∷ w.calls })
