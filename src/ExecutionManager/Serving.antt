-- ===== src/ExecutionManager/Serving.antt =====
-- cerise/run_back_end.py, as far as it runs the ExecutionManager, and what the service as a whole does
-- to a job from round to round.
use simple_cwl_xenon_service.Prelude.{ℕ}
use simple_cwl_xenon_service.Prelude.Int.{ℤ}
use simple_cwl_xenon_service.Exception.{Exn}
use simple_cwl_xenon_service.World.{World, M, pure, ◌>>◌, try_except}
use simple_cwl_xenon_service.World.Gone.{Gone}
use simple_cwl_xenon_service.World.Retained.{Submission, Retained}
use simple_cwl_xenon_service.World.Quiet.{Quiet, Quiet-bind, Quiet-pure}
use simple_cwl_xenon_service.World.Keeps.{Keeps, Keeps-bind, Keeps-pure, Keeps-try}
use simple_cwl_xenon_service.RemoteApi.{update_available}
use simple_cwl_xenon_service.RemoteApi.Installing.{Repeats, update_available-Quiet, install-Quiet}
use simple_cwl_xenon_service.ExecutionManager.Service.{start, execute_loop, execute_jobs}
use simple_cwl_xenon_service.ExecutionManager.Final.{Kept}
use simple_cwl_xenon_service.ExecutionManager.Loops.{
  Handling, start-Keeps, execute_loop-Keeps, execute_jobs-Keeps,
}
use simple_cwl_xenon_service.ExecutionManager.Safety.{Handling-Gone, Handling-Kept}
use simple_cwl_xenon_service.ExecutionManager.Retention.{Handling-Retained}
use simple_cwl_xenon_service.ExecutionManager.Onward.{Staged}
use simple_cwl_xenon_service.ExecutionManager.Resubmission.{Handling-Staged}
use simple_cwl_xenon_service.ExecutionManager.Parts.{
  Parts, services, backend, services-AreQuiet, services-AreFramed,
}

-- `except: logging.critical(...)`
abbrev pub log_critical : Exn → M Unit
log_critical e = pure tt

module _ (parts : Parts) (perf_counter : ℕ → ℤ) (refresh second : ℤ) where
  open parts use {site, api, retry, looks}

  -- The manager is made, and its loop is entered, for as many rounds as the fuel allows.
  unfoldable pub serve : ℕ → M Unit
  unfolding start execute_jobs
  serve fuel =
      try_except
        (do
          start (backend parts) (update_available site api)
          execute_jobs (backend parts) perf_counter refresh second fuel
          pure tt)
        log_critical

  module _ (repeats : Repeats retry) (fuel : ℕ) where
    install_service-Quiet : Quiet ((services parts).install)
    install_service-Quiet =
        Quiet-bind _ _ (install-Quiet site api retry repeats looks) (λ _. Quiet-pure tt)

    pub serve-Keeps : (I : World → Type 0) → Handling I (backend parts) → Keeps I (serve fuel)
    unfolding serve
    serve-Keeps I handling =
        Keeps-try _ _
          (Keeps-bind _ _
            (start-Keeps I (backend parts) handling _ (update_available-Quiet site api))
            λ _.
              Keeps-bind _ _
                (execute_jobs-Keeps I (backend parts) handling install_service-Quiet perf_counter
                  refresh second fuel)
                (λ _. Keeps-pure tt))
          (λ e. Keeps-pure tt)

-- Where the service stands: before its start, or between two rounds of its loop, with the number of
-- readings of the clock and the time of the last look at the scheduler.
pub data Moment : Type 0 where
  before_start : Moment
  between_rounds : (k : ℕ) → (last_active : ℤ) → Moment

module _ (parts : Parts) (perf_counter : ℕ → ℤ) (refresh second : ℤ) where
  -- The service from a moment on, for as many rounds as the fuel allows.
  unfoldable pub serve_from : Moment → ℕ → M Unit
  serve_from before_start fuel = serve parts perf_counter refresh second fuel
  serve_from (between_rounds k last_active) fuel =
      execute_loop (backend parts) perf_counter refresh second fuel k last_active >> pure tt

  pub serve_from-Keeps :
      (repeats : Repeats parts.retry) (moment : Moment) (fuel : ℕ) (I : World → Type 0)
      → Handling I (backend parts)
      → Keeps I (serve_from moment fuel)
  unfolding serve_from
  serve_from-Keeps repeats before_start fuel I handling =
      serve-Keeps parts perf_counter refresh second repeats fuel I handling
  serve_from-Keeps repeats (between_rounds k last_active) fuel I handling =
      Keeps-bind _ _
        (execute_loop-Keeps I (backend parts) handling
          (install_service-Quiet parts perf_counter refresh second repeats fuel) perf_counter
          refresh second fuel k last_active)
        (λ _. Keeps-pure tt)

-- A job that is in a final state before the start of the service or between two rounds of its loop is
-- in a final state or deleted after any number of further rounds, and a job that is deleted by then is
-- not brought back: with the service's own parts, recovery, updates and rounds over any jobs
-- included, whatever the front end does meanwhile, whatever scheduler and file systems reply, and
-- whatever exceptions are raised. `uuid4` is assumed not to draw the id again, and the decorator
-- `retry` to do no more than run a method again.
pub serve-Kept :
    (id : ℕ) (parts : Parts) (perf_counter : ℕ → ℤ) (refresh second : ℤ)
    → Repeats parts.retry
    → (moment : Moment) (fuel : ℕ) (w : World) → Kept id w
    → Kept id (serve_from parts perf_counter refresh second moment fuel w).1
serve-Kept id parts perf_counter refresh second repeats moment fuel w k =
    (serve_from-Keeps parts perf_counter refresh second repeats moment fuel (Kept id)
        (Handling-Kept id (backend parts) (services-AreQuiet parts) (services-AreFramed parts))).at
      w k

-- From its start on, with its own parts, and for any number of rounds, the service creates no row for a
-- job that has none, whatever front end, scheduler and file systems do. `uuid4` is assumed not to draw
-- the id again, and the decorator `retry` to do no more than run a method again.
pub serve-Gone :
    (id : ℕ) (parts : Parts) (perf_counter : ℕ → ℤ) (refresh second : ℤ)
    → Repeats parts.retry
    → (fuel : ℕ) (w : World) → Gone id w
    → Gone id (serve parts perf_counter refresh second fuel w).1
serve-Gone id parts perf_counter refresh second repeats fuel w g =
    (serve-Keeps parts perf_counter refresh second repeats fuel (Gone id)
        (Handling-Gone id (backend parts) (services-AreQuiet parts))).at
      w g

-- From its start on, with its own parts, and for any number of rounds, the service keeps exactly one row
-- for a job whose deletion nobody asks for, with the name, the workflow and the input that the client
-- sent: it never deletes it, whatever state the job is in, whatever else the front end does, and whatever
-- scheduler and file systems reply. `uuid4` is assumed not to draw the id again, and the decorator
-- `retry` to do no more than run a method again.
pub serve-Retained :
    (id : ℕ) (sent : Submission) (parts : Parts) (perf_counter : ℕ → ℤ) (refresh second : ℤ)
    → Repeats parts.retry
    → (fuel : ℕ) (w : World) → Retained id sent w
    → Retained id sent (serve parts perf_counter refresh second fuel w).1
serve-Retained id sent parts perf_counter refresh second repeats fuel w k =
    (serve-Keeps parts perf_counter refresh second repeats fuel (Retained id sent)
        (Handling-Retained id sent (backend parts) (services-AreQuiet parts))).at
      w k

-- A job that is beyond staging in before the start of the service or between two rounds of its loop is
-- not in SUBMITTED, STAGING_IN or STAGING_IN_CR after any number of further rounds, where a round
-- would stage it again: it is beyond staging in or deleted, whatever front end, scheduler and file systems
-- do and whatever exceptions are raised. `uuid4` is assumed not to draw the id again, and the decorator
-- `retry` to do no more than run a method again.
pub serve-Staged :
    (id : ℕ) (parts : Parts) (perf_counter : ℕ → ℤ) (refresh second : ℤ)
    → Repeats parts.retry
    → (moment : Moment) (fuel : ℕ) (w : World) → Staged id w
    → Staged id (serve_from parts perf_counter refresh second moment fuel w).1
serve-Staged id parts perf_counter refresh second repeats moment fuel w k =
    (serve_from-Keeps parts perf_counter refresh second repeats moment fuel (Staged id)
        (Handling-Staged id (backend parts) (services-AreQuiet parts))).at
      w k
