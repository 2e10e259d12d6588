-- ===== src/ExecutionManager/Handling.antt =====
-- Recovering a job and its round of `_process_jobs`, the handlers of exceptions included, keep every
-- invariant that the steps on the job keep.
use simple_cwl_xenon_service.Prelude.{ℕ, refl, Bool, true, false}
use simple_cwl_xenon_service.Exception.{Exn}
use simple_cwl_xenon_service.JobState.{
  JobState, submitted, staging_in, waiting_cr, running_cr, system_error,
}
use simple_cwl_xenon_service.World.{World, M, ◌>>◌, read, write_state, attempt, remove}
use simple_cwl_xenon_service.World.Keeps.{
  Keeps, LocalOnly, Steps, Keeps-pure, Keeps-bind, Keeps-find_job, keeps_rules,
}
use simple_cwl_xenon_service.ExecutionManager.Interface.{Backend, AreQuiet}
use simple_cwl_xenon_service.ExecutionManager.Methods.{
  find_job-Keeps, read-Keeps, delete-Keeps, delete_remote_dir-Keeps, staged_in-finished,
  method_rules,
}
use simple_cwl_xenon_service.ExecutionManager.Process.{
  set_job, set_previous, set_have, get_have, get_job_variable, get_previous, get_update_available,
  when, note_running, check_remote_state, follow_remote, destage_if_finished, stage_if_submitted,
  cancel_if_asked, delete_if_final, delete_if_asked, process_job, mark_system_error,
  stop_on_failure, try_again_later, process_handler, process_one, recover_staging_in,
  recover_staging_out, recover_cancelling, recover_job,
}

set_job-LocalOnly : (id : ℕ) → LocalOnly (set_job id)
set_job-LocalOnly id = record { store = λ w. refl; env = λ w. refl; previous = λ w. refl }

set_have-LocalOnly : (b : Bool) → LocalOnly (set_have b)
set_have-LocalOnly b = record { store = λ w. refl; env = λ w. refl; previous = λ w. refl }

get_have-LocalOnly : LocalOnly get_have
get_have-LocalOnly = record { store = λ w. refl; env = λ w. refl; previous = λ w. refl }

get_job_variable-LocalOnly : LocalOnly get_job_variable
get_job_variable-LocalOnly = record { store = λ w. refl; env = λ w. refl; previous = λ w. refl }

get_previous-LocalOnly : LocalOnly get_previous
get_previous-LocalOnly = record { store = λ w. refl; env = λ w. refl; previous = λ w. refl }

get_update_available-LocalOnly : LocalOnly get_update_available
get_update_available-LocalOnly = record { store = λ w. refl; env = λ w. refl; previous = λ w. refl }

-- The two actions on `previous_state` that a round has: it begins in a state, and a job is put back into
-- that state.
pub record Rewinds (I : World → Type 0) (id : ℕ) : Type 1 where
  pub of_begin : (state : JobState) → Keeps I (set_previous state)
  pub of_reset : (state : JobState) → Keeps I (write_state state id)

module _ (I : World → Type 0) (id : ℕ) (backend : Backend) (quiet : AreQuiet backend.services)
    (steps : Steps I id) where
  open backend use {site, services}
  open steps use {of_quiet, of_local}

  set_job-Keeps : (j : ℕ) → Keeps I (set_job j)
  set_job-Keeps j = of_local (set_job-LocalOnly j)

  set_have-Keeps : (b : Bool) → Keeps I (set_have b)
  set_have-Keeps b = of_local (set_have-LocalOnly b)

  get_have-Keeps : Keeps I get_have
  get_have-Keeps = of_local get_have-LocalOnly

  get_job_variable-Keeps : Keeps I get_job_variable
  get_job_variable-Keeps = of_local get_job_variable-LocalOnly

  get_previous-Keeps : Keeps I get_previous
  get_previous-Keeps = of_local get_previous-LocalOnly

  get_update_available-Keeps : Keeps I get_update_available
  get_update_available-Keeps = of_local get_update_available-LocalOnly

  when-Keeps : (b : Bool) {m : M Unit} → Keeps I m → Keeps I (when b m)
  when-Keeps true k = k
  when-Keeps false k = Keeps-pure tt

  state-Keeps : (j : ℕ) → Keeps I (read (λ r. r.state) j)
  state-Keeps j = read-Keeps I id backend quiet steps _ j

  submission-Keeps : Keeps I (attempt submitted staging_in id)
  submission-Keeps = steps.of_submission

  mark-Keeps : (j : ℕ) → Keeps I (write_state system_error j)
  mark-Keeps = steps.of_mark

  update_files-Keeps : Keeps I (services.update_files id)
  update_files-Keeps = of_quiet (quiet.update_files id)

  ruleset round_rules = (
    method_rules, set_job-Keeps, set_have-Keeps, get_have-Keeps, get_job_variable-Keeps,
    get_previous-Keeps, get_update_available-Keeps, when-Keeps, mark-Keeps, update_files-Keeps,
  )

  note_running-Keeps : (j : ℕ) → Keeps I (note_running backend j)
  unfolding note_running
  note_running-Keeps j = search round_rules depth 8

  check_remote_state-Keeps : Keeps I (check_remote_state backend id)
  unfolding check_remote_state
  check_remote_state-Keeps = search (round_rules, note_running-Keeps) depth 12

  follow_remote-Keeps : (check_remote : Bool) → Keeps I (follow_remote backend check_remote id)
  unfolding follow_remote
  follow_remote-Keeps false = search round_rules
  follow_remote-Keeps true = search (round_rules, check_remote_state-Keeps) depth 8

  destage_if_finished-Keeps : Keeps I (destage_if_finished backend id)
  unfolding destage_if_finished
  destage_if_finished-Keeps = search round_rules depth 8

  stage_if_submitted-Keeps : Keeps I (stage_if_submitted backend id)
  unfolding stage_if_submitted
  stage_if_submitted-Keeps = search (round_rules, submission-Keeps) depth 12

  cancel_if_asked-Keeps : Keeps I (cancel_if_asked backend id)
  unfolding cancel_if_asked
  cancel_if_asked-Keeps = search round_rules depth 8

  pub delete_if_asked-Keeps : Keeps I (remove id) → Keeps I (delete_if_asked backend id)
  unfolding delete_if_asked delete_if_final
  delete_if_asked-Keeps removal =
      Keeps-bind _ _ (read-Keeps I id backend quiet steps _ id) λ please_delete.
        when-Keeps please_delete (
          Keeps-bind _ _ (state-Keeps id)
            λ state. when-Keeps _ (delete-Keeps I id backend quiet steps removal))

  -- The body of the round after the state was read.
  pub rest-Keeps :
      (check_remote : Bool)
      → Keeps I (delete_if_asked backend id)
      → Keeps I (
          read (λ r. r.state) id
          >> (follow_remote backend check_remote id
              >> (destage_if_finished backend id
                  >> (stage_if_submitted backend id
                      >> (cancel_if_asked backend id
                          >> (read (λ r. r.state) id >> delete_if_asked backend id))))))
  rest-Keeps check_remote deletion = Keeps-bind _ _ (state-Keeps id) λ _.
      Keeps-bind _ _ (follow_remote-Keeps check_remote) λ _.
        Keeps-bind _ _ destage_if_finished-Keeps λ _. Keeps-bind _ _ stage_if_submitted-Keeps λ _.
          Keeps-bind _ _ cancel_if_asked-Keeps
            (λ _. Keeps-bind _ _ (state-Keeps id) (λ _. deletion))

  pub mark_system_error-Keeps : Keeps I (mark_system_error backend)
  unfolding mark_system_error
  mark_system_error-Keeps = search round_rules depth 8

  pub stop_on_failure-Keeps : (e : Exn) → Keeps I (stop_on_failure backend e)
  unfolding stop_on_failure
  stop_on_failure-Keeps e = search round_rules depth 8

  recover_staging_out-Keeps : Keeps I (recover_staging_out backend id)
  unfolding recover_staging_out
  recover_staging_out-Keeps = search (round_rules, staged_in-finished) depth 8

  recover_cancelling-Keeps : (pending : JobState) → Keeps I (recover_cancelling backend pending id)
  unfolding recover_cancelling
  recover_cancelling-Keeps pending = search round_rules depth 8

  pub recover_rest-Keeps :
      Keeps I (recover_staging_in backend id) → Keeps I (recover_job backend id)
  unfolding recover_job
  recover_rest-Keeps first = Keeps-bind _ _ first λ _. Keeps-bind _ _ recover_staging_out-Keeps λ _.
      Keeps-bind _ _ (recover_cancelling-Keeps waiting_cr)
        (λ _. recover_cancelling-Keeps running_cr)

  module _ (rewinds : Rewinds I id) where
    begin-Keeps : (state : JobState) → Keeps I (set_previous state)
    begin-Keeps = rewinds.of_begin

    reset-Keeps : (state : JobState) → Keeps I (write_state state id)
    reset-Keeps = rewinds.of_reset

    process_job-Keeps :
        (check_remote : Bool)
        → Keeps I (delete_if_asked backend id)
        → Keeps I (process_job backend check_remote id)
    unfolding process_job
    process_job-Keeps check_remote deletion =
        Keeps-find_job id _ (find_job-Keeps I id backend quiet steps id) (
          Keeps-bind _ _ (set_job-Keeps id) λ _. Keeps-bind _ _ (state-Keeps id) λ previous.
            Keeps-bind _ _ (begin-Keeps previous) (λ _. rest-Keeps check_remote deletion))

    pub try_again_later-Keeps : (e : Exn) → Keeps I (try_again_later backend id e)
    unfolding try_again_later
    try_again_later-Keeps e =
        Keeps-find_job id _ (find_job-Keeps I id backend quiet steps id)
          (search (round_rules, reset-Keeps) depth 16)

    process_handler-Keeps : (e : Exn) → Keeps I (process_handler backend id e)
    unfolding process_handler
    process_handler-Keeps e =
        search (keeps_rules, mark_system_error-Keeps, stop_on_failure-Keeps, try_again_later-Keeps)
          depth 8

    pub process_one-Keeps :
        (check_remote : Bool)
        → Keeps I (delete_if_asked backend id)
        → Keeps I (process_one backend check_remote id)
    unfolding process_one
    process_one-Keeps check_remote deletion =
        search (keeps_rules, process_job-Keeps, process_handler-Keeps) depth 8

    pub recover_staging_in-Keeps : Keeps I (recover_staging_in backend id)
    unfolding recover_staging_in
    recover_staging_in-Keeps = Keeps-bind _ _ (state-Keeps id) λ state. when-Keeps _ (
        Keeps-bind _ _ (delete_remote_dir-Keeps I id backend quiet steps)
          (λ _. reset-Keeps submitted))

    pub recover_job-Keeps : Keeps I (recover_job backend id)
    recover_job-Keeps = recover_rest-Keeps recover_staging_in-Keeps
