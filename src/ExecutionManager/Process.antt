-- ===== src/ExecutionManager/Process.antt =====
-- The loops of the ExecutionManager: recovery at start-up, `_process_jobs` and one round of
-- `execute_jobs`; Service has the loop itself and its clock.
use Prim.Native.String.{◌++◌}
use simple_cwl_xenon_service.Prelude.{
  ℕ, String, Bool, true, false, ◌&&◌, ◌||◌, not, some, List, [], ◌∷◌, if◌then◌else◌,
}
use simple_cwl_xenon_service.Exception.{
  Exn, Outcome, ok, or_raise, file_not_found, os_error, eof_error, ssh_exception, key_error,
  is_os_error, first_arg,
}
use simple_cwl_xenon_service.JobState.{
  JobState, submitted, staging_in, finished, staging_out, waiting_cr, running_cr, system_error,
  state_eq, is_final, cancellation_active, is_remote,
}
use simple_cwl_xenon_service.JobStore.{level_debug}
use simple_cwl_xenon_service.Value.{contains}
use simple_cwl_xenon_service.World.{
  World, M, pure, lift, ◌>>=◌, ◌>>◌, try_except, read, write_state, attempt, log, find_job,
  find_jobs, unless,
}
use simple_cwl_xenon_service.JobRunner.{update_job, cancel_job}
use simple_cwl_xenon_service.ExecutionManager.Interface.{Backend}
use simple_cwl_xenon_service.ExecutionManager.{
  error, stage_and_start_job, cancel, destage_job, delete,
}

-- The exceptions that the first handler of `_process_jobs` takes.
abbrev pub is_system_exception : Exn → Bool
is_system_exception (file_not_found m a) = true
is_system_exception (os_error m a) = true
is_system_exception (eof_error a) = true
is_system_exception (ssh_exception a) = true
is_system_exception _ = false

-- `str(e)` of an OSError.
abbrev pub message_of : Exn → String
message_of (file_not_found m a) = m
message_of (os_error m a) = m
message_of _ = ""

-- The tests on the message of an OSError that tell a problem with the connection.
unfoldable pub is_network_message : String → Bool
unfolding contains
is_network_message m =
    contains "Socket" m
    || contains "Network" m
    || contains "Temporary" m
    || contains "Timeout opening channel" m

-- An OSError that has nothing to do with the connection.
unfoldable pub is_io_failure : Exn → Bool
unfolding is_network_message
is_io_failure e = is_os_error e && not (is_network_message (message_of e))

abbrev pub set_job : ℕ → M Unit
set_job id w = (ok tt, record w { job = some id })

abbrev pub set_previous : JobState → M Unit
set_previous state w = (ok tt, record w { previous_state = some state })

abbrev pub set_have : Bool → M Unit
set_have b w = (ok tt, record w { have_running_jobs = b })

abbrev pub get_have : M Bool
get_have w = (ok w.have_running_jobs, w)

-- Reading a local variable that is not bound is an error; its class is of no account here.
abbrev pub get_job_variable : M ℕ
get_job_variable w = (or_raise w.job key_error, w)

abbrev pub get_previous : M JobState
get_previous w = (or_raise w.previous_state key_error, w)

abbrev pub get_update_available : M Bool
get_update_available w = (ok w.update_available, w)

-- `if m: n`
abbrev pub when : Bool → M Unit → M Unit
when true n = n
when false n = pure tt

-- `if self._shutting_down`, after the signal, if any, that arrived since.
abbrev pub look : List Bool → World → Outcome Bool × World
look [] w = (ok w.shutting_down, w)
look (s ∷ ss) w =
    let b = w.shutting_down || s in (ok b, record w { shutting_down = b; signals = ss })

abbrev pub poll_shutdown : M Bool
poll_shutdown w = look w.signals w

module _ (backend : Backend) where
  open backend use {site, services}

  -- `have_running_jobs or JobState.is_remote(job.state)`
  unfoldable pub note_running : ℕ → M Unit
  note_running id = do
    have ← get_have
    unless have do state ← read (λ r. r.state) id; set_have (is_remote state)

  unfoldable pub check_remote_state : ℕ → M Unit
  unfolding note_running
  check_remote_state id = do
    update_job site id
    services.update_files id
    job ← find_job id
    set_job job
    note_running job

  unfoldable pub follow_remote : Bool → ℕ → M Unit
  unfolding check_remote_state
  follow_remote false id = pure tt
  follow_remote true id = do
    state ← read (λ r. r.state) id
    when (is_remote state) (check_remote_state id)

  unfoldable pub destage_if_finished : ℕ → M Unit
  destage_if_finished id = do
    state ← read (λ r. r.state) id
    when (state_eq state finished) (destage_job backend id)

  unfoldable pub stage_if_submitted : ℕ → M Unit
  stage_if_submitted id = do
    update ← get_update_available
    unless update
        do taken ← attempt submitted staging_in id; when taken (stage_and_start_job backend id)

  unfoldable pub cancel_if_asked : ℕ → M Unit
  cancel_if_asked id = do
    state ← read (λ r. r.state) id
    when (cancellation_active state) (cancel backend id)

  unfoldable pub delete_if_final : ℕ → M Unit
  delete_if_final id = do state ← read (λ r. r.state) id; when (is_final state) (delete backend id)

  unfoldable pub delete_if_asked : ℕ → M Unit
  unfolding delete_if_final
  delete_if_asked id = do
    please_delete ← read (λ r. r.please_delete) id
    when please_delete (delete_if_final id)

  -- The body of the `try` statement. The two readings of the state whose values are dropped are
  -- those of the debug messages.
  unfoldable pub process_job : Bool → ℕ → M Unit
  unfolding follow_remote destage_if_finished stage_if_submitted cancel_if_asked delete_if_asked
  process_job check_remote job_id = do
    id ← find_job job_id
    set_job id
    previous ← read (λ r. r.state) id
    set_previous previous
    read (λ r. r.state) id
    follow_remote check_remote id
    destage_if_finished id
    stage_if_submitted id
    cancel_if_asked id
    read (λ r. r.state) id
    delete_if_asked id

  -- `job.state = JobState.SYSTEM_ERROR`, on the job that the variable names.
  unfoldable pub mark_system_error : M Unit
  mark_system_error = do job ← get_job_variable; write_state system_error job

  abbrev pub io_failure_message : Exn → String
  io_failure_message e =
      "An IO error occurred while processing the job: "
      ++ (message_of e
          ++ ". Please check that your network connection works, and that you have"
          ++ " enough disk space or quota on the remote machine.")

  -- The result tells whether the loop goes on; otherwise `_process_jobs` returns False.
  unfoldable pub stop_on_failure : Exn → M Bool
  stop_on_failure e = do
    job ← get_job_variable
    error backend job (io_failure_message e)
    write_state system_error job
    pure false

  abbrev pub connection_message : String → String
  connection_message reason =
      "Connection problem with remote resource: " ++ (reason ++ ", will try again later")

  unfoldable pub try_again_later : ℕ → Exn → M Bool
  try_again_later id e = do
    job ← find_job id
    set_job job
    reason ← lift (first_arg e)
    log site job level_debug (connection_message reason ∷ [])
    previous ← get_previous
    write_state previous job
    set_have true
    pure true

  unfoldable pub process_handler : ℕ → Exn → M Bool
  unfolding stop_on_failure try_again_later mark_system_error is_io_failure
  process_handler id e =
      if is_system_exception e
      then (if is_io_failure e then stop_on_failure e else try_again_later id e)
      else (mark_system_error >> pure true)

  unfoldable pub process_one : Bool → ℕ → M Bool
  unfolding process_handler
  process_one check_remote id =
      try_except (process_job check_remote id >> pure true) (process_handler id)

  -- `for job_id in ...`, which ends early on a shutdown or by `return False`.
  unfoldable pub process_loop : Bool → List ℕ → M Bool
  unfolding process_one
  process_loop check_remote [] = get_have
  process_loop check_remote (id ∷ ids) = do
    shutting_down ← poll_shutdown
    elim shutting_down [
      | true ↦ get_have
      | false ↦ do
        go_on ← process_one check_remote id
        elim go_on [ true ↦ process_loop check_remote ids | false ↦ pure false ]
    ]

  unfoldable pub process_jobs : Bool → M Bool
  unfolding process_loop
  process_jobs check_remote = do
    set_have (not check_remote)
    ids ← find_jobs
    process_loop check_remote ids

  abbrev pub set_update_available : Bool → M Unit
  set_update_available b w = (ok tt, record w { update_available = b })

  unfoldable pub install_if_idle : Bool → M Unit
  install_if_idle have_running_jobs = do
    update ← get_update_available
    when (not have_running_jobs && update) (services.install >> set_update_available false)

  -- One round of the loop of `execute_jobs`.
  unfoldable pub execute_round : Bool → M Unit
  unfolding process_jobs install_if_idle
  execute_round check_remote = process_jobs check_remote >>= install_if_idle

  -- The recovery of a job when the service starts; each `if` reads the state again.
  unfoldable pub recover_staging_in : ℕ → M Unit
  recover_staging_in id = do
    state ← read (λ r. r.state) id
    when (state_eq state staging_in) (services.delete_remote_dir id >> write_state submitted id)

  unfoldable pub recover_staging_out : ℕ → M Unit
  recover_staging_out id = do
    state ← read (λ r. r.state) id
    when (state_eq state staging_out) (services.delete_output_dir id >> write_state finished id)

  unfoldable pub recover_cancelling : JobState → ℕ → M Unit
  recover_cancelling pending id = do
    state ← read (λ r. r.state) id
    when (state_eq state pending) (cancel_job site id >> pure tt)

  unfoldable pub recover_job : ℕ → M Unit
  unfolding recover_staging_in recover_staging_out recover_cancelling
  recover_job id = do
    recover_staging_in id
    recover_staging_out id
    recover_cancelling waiting_cr id
    recover_cancelling running_cr id

  unfoldable pub recover_each : List ℕ → M Unit
  recover_each [] = pure tt
  recover_each (id ∷ ids) = recover_job id >> recover_each ids

  unfoldable pub recover : M Unit
  unfolding recover_job recover_each
  recover = find_jobs >>= recover_each
