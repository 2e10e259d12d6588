-- ===== src/ExecutionManager/Subject.antt =====
-- The steps of the back end on a job itself, for a set of states that no step takes it out of.
use simple_cwl_xenon_service.Prelude.{ℕ, ◌≡◌, refl, inl, inr, Bool, true, Bool-cases}
use simple_cwl_xenon_service.JobState.{JobState, submitted, staging_in, system_error, state_eq}
use simple_cwl_xenon_service.JobStore.{with_state, set_state}
use simple_cwl_xenon_service.JobStore.Table.{Row}
use simple_cwl_xenon_service.JobStore.Select.{transit}
use simple_cwl_xenon_service.JobStore.Single.{Single-set_var, Single-try_transition}
use simple_cwl_xenon_service.World.{World, write_state, attempt, remove}
use simple_cwl_xenon_service.World.At.{InState, InState-Stable, StableTest}
use simple_cwl_xenon_service.World.Gone.{Gone, NoRow-set_var, NoRow-try_transition}
use simple_cwl_xenon_service.World.Keeps.{Keeps, Steps, staged_in}
use simple_cwl_xenon_service.World.Triple.{same-Post, Triple-remove}
use simple_cwl_xenon_service.ExecutionManager.Bystander.{
  InOrGone, Keeps-InOrGone, remove-Gone, moved-InOrGone, quiet-InOrGone, mark-InOrGone,
}

transit-InState :
    (S : JobState → Bool) (from to : JobState) (r : Row)
    → S to ≡ true
    → InState S r
    → InState S (transit from to r)
transit-InState S from to r t h = elim (Bool-cases (state_eq r.state from)) [
  | inl e ↦ rw e t
  | inr n ↦ rw n h
]

module _ (id : ℕ) (S : JobState → Bool) (stable : StableTest S)
    (marks : S system_error ≡ true) where
  pub write_state-Subject :
      (state : JobState) → S state ≡ true → Keeps (InOrGone id S) (write_state state id)
  unfolding write_state set_state
  write_state-Subject state t =
      Keeps-InOrGone id S stable marks _
        (λ s none. NoRow-set_var id s none (with_state state) (λ _. refl) id)
        λ s (r, one, h).
          (with_state state r, Single-set_var id r s one (with_state state) (λ _. refl), t)

  attempt-Subject :
      (from to : JobState)
      → ((r : Row) → InState S r → InState S (transit from to r))
      → Keeps (InOrGone id S) (attempt from to id)
  unfolding attempt
  attempt-Subject from to moves =
      Keeps-InOrGone id S stable marks _ (λ s none. NoRow-try_transition id s none from to id)
        λ s (r, one, h). (transit from to r, Single-try_transition id r s one from to, moves r h)

  pub remove-Subject : Keeps (InOrGone id S) (remove id)
  remove-Subject = record { at = at }
    where
      at : (w : World) → InOrGone id S w → InOrGone id S (remove id w).1
      at w (inl a) =
          inr (same-Post (Gone id) _ ((Triple-remove id (InState-Stable S stable)).run w a))
      at w (inr g) = inr ((remove-Gone id id).at w g)

  -- The set has the states beyond staging in, and from no state in it a job is staged in.
  pub Steps-Subject :
      ((state : JobState) → staged_in state ≡ true → S state ≡ true)
      → ((r : Row) → InState S r → InState S (transit submitted staging_in r))
      → Steps (InOrGone id S) id
  Steps-Subject beyond submission = record {
    of_quiet = λ {m = m} q. record { at = quiet-InOrGone id S stable marks m q };
    of_local = λ {m = m} l. record {
      at = λ w. moved-InOrGone id S stable marks (m w).1 w (l.store w) (l.env w);
    };
    of_write_state = λ state t. write_state-Subject state (beyond state t);
    of_attempt =
        λ from to t. attempt-Subject from to (λ r. transit-InState S from to r (beyond to t));
    of_submission = attempt-Subject submitted staging_in submission;
    of_mark = mark-InOrGone id S stable marks;
  }
