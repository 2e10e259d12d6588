-- ===== src/ExecutionManager/Bystander.antt =====
-- What the actions on a job do to a job that has no row, and to another job.
use simple_cwl_xenon_service.Prelude.{ℕ, ◌≡◌, refl, ◌≢◌, ◌⊎◌, inl, inr, Bool, true}
use simple_cwl_xenon_service.Exception.{Outcome}
use simple_cwl_xenon_service.JobState.{JobState, submitted, staging_in, system_error}
use simple_cwl_xenon_service.JobStore.{Store, with_state, set_state}
use simple_cwl_xenon_service.JobStore.Single.{
  Single-set_var, Single-set_var_ne, Single-try_transition_ne, Single-delete_job_ne,
}
use simple_cwl_xenon_service.World.{World, M, statement, interfere, write_state, attempt, remove}
use simple_cwl_xenon_service.World.At.{
  At, InState, InState-Stable, StableTest, Holds, interfere-At, same_or_ne,
}
use simple_cwl_xenon_service.World.Gone.{
  NoRow, Gone, NoRow-set_var, NoRow-try_transition, NoRow-delete_job, interfere-Gone,
}
use simple_cwl_xenon_service.World.Quiet.{Quiet}
use simple_cwl_xenon_service.World.Keeps.{Keeps, Steps}
use simple_cwl_xenon_service.ExecutionManager.Process.{set_previous}
use simple_cwl_xenon_service.ExecutionManager.Handling.{Rewinds}

-- Marking any job leaves this one in a state that passes the test.
pub mark-Holds :
    (id : ℕ) (S : JobState → Bool)
    → S system_error ≡ true
    → (j : ℕ) (s : Store) → Holds id (InState S) s
    → Holds id (InState S) (set_state system_error j s)
unfolding set_state
mark-Holds id S marks j s (r, one, h) = elim (same_or_ne j id) [
  | inl e ↦ rw e (
    with_state system_error r,
    Single-set_var id r s one (with_state system_error) (λ _. refl),
    marks,
  )
  | inr ne ↦ (r, Single-set_var_ne id r s one (with_state system_error) (λ _. refl) j ne, h)
]

module _ (id : ℕ) where
  Keeps-Gone :
      {A : Type 0} (f : Store → Outcome A × Store)
      → ((s : Store) → NoRow id s → NoRow id (f s).1)
      → Keeps (Gone id) (statement f)
  unfolding statement
  Keeps-Gone f none = record {
    at = λ w g.
        let g' = interfere-Gone id w g in
        record { no_row = none (interfere w).store g'.no_row; apart = g'.apart };
  }

  moved-Gone : (v w : World) → v.store ≡ w.store → v.env ≡ w.env → Gone id w → Gone id v
  moved-Gone v w store env g = record { no_row = rw store g.no_row; apart = rw env g.apart }

  set_state-NoRow :
      (j : ℕ) (state : JobState) (s : Store) → NoRow id s → NoRow id (set_state state j s)
  unfolding set_state
  set_state-NoRow j state s none = NoRow-set_var id s none (with_state state) (λ r. refl) j

  write_state-Gone : (j : ℕ) (state : JobState) → Keeps (Gone id) (write_state state j)
  unfolding write_state
  write_state-Gone j state = Keeps-Gone _ (set_state-NoRow j state)

  attempt-Gone : (j : ℕ) (from to : JobState) → Keeps (Gone id) (attempt from to j)
  unfolding attempt
  attempt-Gone j from to = Keeps-Gone _ (λ s none. NoRow-try_transition id s none from to j)

  pub remove-Gone : (j : ℕ) → Keeps (Gone id) (remove j)
  unfolding remove
  remove-Gone j = Keeps-Gone _ (λ s none. NoRow-delete_job id s none j)

  -- A job that has no row gets none, whatever job the actions are on.
  pub Steps-Gone : (j : ℕ) → Steps (Gone id) j
  Steps-Gone j = record {
    of_quiet = λ q. record { at = q.gone id };
    of_local = λ {m = m} l. record { at = λ w. moved-Gone (m w).1 w (l.store w) (l.env w) };
    of_write_state = λ state _. write_state-Gone j state;
    of_attempt = λ from to _. attempt-Gone j from to;
    of_submission = attempt-Gone j submitted staging_in;
    of_mark = λ k. write_state-Gone k system_error;
  }

  pub Rewinds-Gone : (j : ℕ) → Rewinds (Gone id) j
  Rewinds-Gone j = record {
    of_begin = λ state. record { at = λ w. moved-Gone _ w refl refl };
    of_reset = write_state-Gone j;
  }

-- The job is in a state that passes the test, or has no row.
abbrev pub InOrGone : ℕ → (JobState → Bool) → World → Type 0
InOrGone id S w = At id (InState S) w ⊎ Gone id w

module _ (id : ℕ) (S : JobState → Bool) (stable : StableTest S)
    (marks : S system_error ≡ true) where
  pub Keeps-InOrGone :
      {A : Type 0} (f : Store → Outcome A × Store)
      → ((s : Store) → NoRow id s → NoRow id (f s).1)
      → ((s : Store) → Holds id (InState S) s → Holds id (InState S) (f s).1)
      → Keeps (InOrGone id S) (statement f)
  unfolding statement
  Keeps-InOrGone f none some = record { at = at }
    where
      at : (w : World) → InOrGone id S w → InOrGone id S (statement f w).1
      at w (inl a) =
          let a' = interfere-At id (InState S) (InState-Stable S stable) w a in
          inl (record { row = some (interfere w).store a'.row; apart = a'.apart })
      at w (inr g) = inr ((Keeps-Gone id f none).at w g)

  pub moved-InOrGone :
      (v w : World) → v.store ≡ w.store → v.env ≡ w.env → InOrGone id S w → InOrGone id S v
  moved-InOrGone v w store env (inl a) =
      inl (record { row = rw store a.row; apart = rw env a.apart })
  moved-InOrGone v w store env (inr g) = inr (moved-Gone id v w store env g)

  pub quiet-InOrGone :
      {A : Type 0} (m : M A) → Quiet m → (w : World) → InOrGone id S w → InOrGone id S (m w).1
  quiet-InOrGone m q w (inl a) = inl (q.at id S stable w a)
  quiet-InOrGone m q w (inr g) = inr (q.gone id w g)

  pub mark-InOrGone : (k : ℕ) → Keeps (InOrGone id S) (write_state system_error k)
  unfolding write_state
  mark-InOrGone k = Keeps-InOrGone _ (set_state-NoRow id k system_error) (mark-Holds id S marks k)

  module _ (j : ℕ) (ne : j ≢ id) where
    write_state-InOrGone : (state : JobState) → Keeps (InOrGone id S) (write_state state j)
    unfolding write_state set_state
    write_state-InOrGone state =
        Keeps-InOrGone _ (set_state-NoRow id j state)
          λ s (r, one, h). (r, Single-set_var_ne id r s one (with_state state) (λ _. refl) j ne, h)

    attempt-InOrGone : (from to : JobState) → Keeps (InOrGone id S) (attempt from to j)
    unfolding attempt
    attempt-InOrGone from to =
        Keeps-InOrGone _ (λ s none. NoRow-try_transition id s none from to j)
          λ s (r, one, h). (r, Single-try_transition_ne id r s one from to j ne, h)

    pub remove-InOrGone : Keeps (InOrGone id S) (remove j)
    unfolding remove
    remove-InOrGone =
        Keeps-InOrGone _ (λ s none. NoRow-delete_job id s none j)
          λ s (r, one, h). (r, Single-delete_job_ne id r s one j ne, h)

    -- The actions on another job leave a job where it is.
    pub Steps-InOrGone : Steps (InOrGone id S) j
    Steps-InOrGone = record {
      of_quiet = λ {m = m} q. record { at = quiet-InOrGone m q };
      of_local = λ {m = m} l. record { at = λ w. moved-InOrGone (m w).1 w (l.store w) (l.env w) };
      of_write_state = λ state _. write_state-InOrGone state;
      of_attempt = λ from to _. attempt-InOrGone from to;
      of_submission = attempt-InOrGone submitted staging_in;
      of_mark = mark-InOrGone;
    }

    begin-InOrGone : (state : JobState) → Keeps (InOrGone id S) (set_previous state)
    begin-InOrGone state = record { at = λ w. moved-InOrGone _ w refl refl }

    pub Rewinds-InOrGone : Rewinds (InOrGone id S) j
    Rewinds-InOrGone = record { of_begin = begin-InOrGone; of_reset = write_state-InOrGone }
