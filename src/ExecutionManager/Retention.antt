-- ===== src/ExecutionManager/Retention.antt =====
-- A job whose deletion nobody asks for keeps its row, whatever job the back end handles.
use simple_cwl_xenon_service.Prelude.{ℕ, ◌≡◌, refl, ap, ◌≢◌, inl, inr, false}
use simple_cwl_xenon_service.Exception.{Outcome}
use simple_cwl_xenon_service.JobState.{JobState, submitted, staging_in, system_error}
use simple_cwl_xenon_service.JobStore.{Store, with_state, set_state}
use simple_cwl_xenon_service.JobStore.Table.{Row}
use simple_cwl_xenon_service.JobStore.Single.{get_var-Single}
use simple_cwl_xenon_service.World.{
  World, M, statement, interfere, continue, read, write_state, attempt, remove,
}
use simple_cwl_xenon_service.World.At.{Holds, same_or_ne}
use simple_cwl_xenon_service.World.Retained.{
  Submission, NotAsked, Retained, set_var-NotAsked, try_transition-NotAsked, delete_job-NotAsked,
  interfere-Retained,
}
use simple_cwl_xenon_service.World.Keeps.{Keeps, Steps}
use simple_cwl_xenon_service.ExecutionManager.Interface.{Backend, AreQuiet}
use simple_cwl_xenon_service.ExecutionManager.Process.{when, delete_if_final, delete_if_asked}
use simple_cwl_xenon_service.ExecutionManager.Handling.{
  Rewinds, delete_if_asked-Keeps, process_one-Keeps, recover_job-Keeps,
}
use simple_cwl_xenon_service.ExecutionManager.Loops.{Handling}

module _ (id : ℕ) (sent : Submission) where
  Keeps-Retained :
      {A : Type 0} (f : Store → Outcome A × Store)
      → ((s : Store) → Holds id (NotAsked sent) s → Holds id (NotAsked sent) (f s).1)
      → Keeps (Retained id sent) (statement f)
  unfolding statement
  Keeps-Retained f keeps = record {
    at = λ w k.
        let k' = interfere-Retained id sent w k in
        record { row = keeps (interfere w).store k'.row; unasked = k'.unasked };
  }

  moved-Retained :
      (v w : World) → v.store ≡ w.store → v.env ≡ w.env → Retained id sent w → Retained id sent v
  moved-Retained v w store env k = record { row = rw store k.row; unasked = rw env k.unasked }

  write_state-Retained : (state : JobState) (j : ℕ) → Keeps (Retained id sent) (write_state state j)
  unfolding write_state set_state
  write_state-Retained state j = Keeps-Retained _ λ s k.
      set_var-NotAsked id sent s k (with_state state)
        (record { keeps_id = λ r. refl; keeps_request = λ r. refl }) j

  attempt-Retained : (j : ℕ) (from to : JobState) → Keeps (Retained id sent) (attempt from to j)
  unfolding attempt
  attempt-Retained j from to =
      Keeps-Retained _ (λ s k. try_transition-NotAsked id sent s k from to j)

  remove-Retained : (j : ℕ) → j ≢ id → Keeps (Retained id sent) (remove j)
  unfolding remove
  remove-Retained j ne = Keeps-Retained _ (λ s k. delete_job-NotAsked id sent s k j ne)

  Steps-Retained : (j : ℕ) → Steps (Retained id sent) j
  Steps-Retained j = record {
    of_quiet = λ q. record { at = q.retains id sent };
    of_local = λ {m = m} l. record { at = λ w. moved-Retained (m w).1 w (l.store w) (l.env w) };
    of_write_state = λ state _. write_state-Retained state j;
    of_attempt = λ from to _. attempt-Retained j from to;
    of_submission = attempt-Retained j submitted staging_in;
    of_mark = write_state-Retained system_error;
  }

  Rewinds-Retained : (j : ℕ) → Rewinds (Retained id sent) j
  Rewinds-Retained j = record {
    of_begin = λ state. record { at = λ w. moved-Retained _ w refl refl };
    of_reset = λ state. write_state-Retained state j;
  }

  not_asked : (r : Row) → NotAsked sent r → r.please_delete ≡ false
  not_asked r h = ap (λ q. q.1) h

  -- Where the column is read, it says that deletion is not asked for.
  if_asked-Retained :
      (m : M Unit) (w : World)
      → Retained id sent w
      → Retained id sent (continue (λ b. when b m) (read (λ r. r.please_delete) id w)).1
  unfolding read statement
  if_asked-Retained m w k =
      let k' = interfere-Retained id sent w k in
      let (r, one, unasked) = k'.row in
      rw (get_var-Single id r (interfere w).store one (λ r. r.please_delete), not_asked r unasked)
        k'

  module _ (backend : Backend) (quiet : AreQuiet backend.services) where
    delete_if_asked-Retained : Keeps (Retained id sent) (delete_if_asked backend id)
    unfolding delete_if_asked
    delete_if_asked-Retained = record { at = if_asked-Retained (delete_if_final backend id) }

    of_deletion-Retained : (j : ℕ) → Keeps (Retained id sent) (delete_if_asked backend j)
    of_deletion-Retained j = elim (same_or_ne j id) [
      | inl e ↦ rw e delete_if_asked-Retained
      | inr ne ↦
          delete_if_asked-Keeps (Retained id sent) j backend quiet (Steps-Retained j)
            (remove-Retained j ne)
    ]

    pub Handling-Retained : Handling (Retained id sent) backend
    Handling-Retained = record {
      of_quiet = (Steps-Retained id).of_quiet;
      of_local = (Steps-Retained id).of_local;
      of_round = λ check_remote j.
          process_one-Keeps (Retained id sent) j backend quiet (Steps-Retained j)
            (Rewinds-Retained j) check_remote (of_deletion-Retained j);
      of_recovery = λ j.
          recover_job-Keeps (Retained id sent) j backend quiet (Steps-Retained j)
            (Rewinds-Retained j);
    }
