-- ===== src/Front/Cancel.antt =====
-- What a cancel request does to a job.
use simple_cwl_xenon_service.Prelude.{ℕ, ◌≡◌, ◌≢◌, true, ◌||◌, arith}
use simple_cwl_xenon_service.JobState.{
  JobState, submitted, staging_in, waiting, running, finished, staging_out, staging_in_cr,
  waiting_cr, running_cr, staging_out_cr, cancelled, state_eq, is_final, cancellation_active,
}
use simple_cwl_xenon_service.JobStore.Table.{Row}
use simple_cwl_xenon_service.JobStore.{Store, with_state}
use simple_cwl_xenon_service.JobStore.Select.{transit}
use simple_cwl_xenon_service.JobStore.Single.{
  Single, Single-try_transition, Single-try_transition_ne,
}
use simple_cwl_xenon_service.Front.{cancel_transitions}

-- Where a cancel request leads from each state.
abbrev pub cancel_target : JobState → JobState
cancel_target submitted = cancelled
cancel_target staging_in = staging_in_cr
cancel_target waiting = waiting_cr
cancel_target running = running_cr
cancel_target finished = cancelled
cancel_target staging_out = staging_out_cr
cancel_target s = s

abbrev all_transits : Row → Row
all_transits r = transit staging_out staging_out_cr (
    transit finished cancelled (
      transit running running_cr (
        transit waiting waiting_cr
          (transit staging_in staging_in_cr (transit submitted cancelled r)))))

all_transits_lem : (r : Row) → all_transits r ≡ with_state (cancel_target r.state) r
unfolding state_eq
all_transits_lem r = ground arith

-- A cancel request moves a job to the target of its state and changes no other column.
pub Single-cancel_transitions :
    (id : ℕ) (r : Row) (s : Store)
    → Single id r s
    → Single id (with_state (cancel_target r.state) r) (cancel_transitions id s)
unfolding cancel_transitions
Single-cancel_transitions id r s h = rw (← all_transits_lem r) (
    let h = Single-try_transition id _ _ h submitted cancelled in
    let h = Single-try_transition id _ _ h staging_in staging_in_cr in
    let h = Single-try_transition id _ _ h waiting waiting_cr in
    let h = Single-try_transition id _ _ h running running_cr in
    let h = Single-try_transition id _ _ h finished cancelled in
    Single-try_transition id _ _ h staging_out staging_out_cr)

pub Single-cancel_transitions_ne :
    (id j : ℕ) (r : Row) (s : Store) → j ≢ id → Single id r s → Single id r (cancel_transitions j s)
unfolding cancel_transitions
Single-cancel_transitions_ne id j r s ne h =
    let h = Single-try_transition_ne id _ _ h submitted cancelled j ne in
    let h = Single-try_transition_ne id _ _ h staging_in staging_in_cr j ne in
    let h = Single-try_transition_ne id _ _ h waiting waiting_cr j ne in
    let h = Single-try_transition_ne id _ _ h running running_cr j ne in
    let h = Single-try_transition_ne id _ _ h finished cancelled j ne in
    Single-try_transition_ne id _ _ h staging_out staging_out_cr j ne

-- After a cancel request every job is in a final state or pending cancellation, never both.
pub cancel_target_pending :
    (s : JobState) → (is_final (cancel_target s) || cancellation_active (cancel_target s)) ≡ true
unfolding is_final cancellation_active
cancel_target_pending s = ground arith

pub cancel_target_idem : (s : JobState) → cancel_target (cancel_target s) ≡ cancel_target s
cancel_target_idem s = ground arith

-- A cancel request leaves final states, and requests already pending, alone.
pub cancel_target-final : (s : JobState) → is_final s ≡ true → cancel_target s ≡ s
unfolding is_final
cancel_target-final s h = ground arith
