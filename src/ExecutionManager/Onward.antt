-- ===== src/ExecutionManager/Onward.antt =====
-- The steps of the back end on a job that has gone beyond staging in: none takes it back.
use simple_cwl_xenon_service.Prelude.{ℕ, ◌≡◌, refl, arith, ◌∙◌, true, some}
use simple_cwl_xenon_service.JobState.{JobState, submitted, staging_in, system_error}
use simple_cwl_xenon_service.JobStore.Table.{Row}
use simple_cwl_xenon_service.JobStore.Select.{transit}
use simple_cwl_xenon_service.World.{World, M, remove}
use simple_cwl_xenon_service.World.At.{InState, StableTest}
use simple_cwl_xenon_service.World.Keeps.{Keeps, Steps, staged_in}
use simple_cwl_xenon_service.World.Frame.{Framed, Framed-write_state, Framed-attempt}
use simple_cwl_xenon_service.ExecutionManager.Bystander.{InOrGone}
use simple_cwl_xenon_service.ExecutionManager.Subject.{remove-Subject, Steps-Subject}

pub staged_in-StableTest : StableTest staged_in
unfolding staged_in
staged_in-StableTest s h = ground arith

pub system_error-staged_in : staged_in system_error ≡ true
unfolding staged_in
system_error-staged_in = refl

submission-staged_in :
    (r : Row) → InState staged_in r → InState staged_in (transit submitted staging_in r)
unfolding staged_in
submission-staged_in r h = ground arith

module _ (id : ℕ) where
  abbrev pub Staged : World → Type 0
  Staged = InOrGone id staged_in

  pub remove-Staged : Keeps Staged (remove id)
  remove-Staged = remove-Subject id staged_in staged_in-StableTest system_error-staged_in

  pub Steps-Staged : Steps Staged id
  Steps-Staged =
      Steps-Subject id staged_in staged_in-StableTest system_error-staged_in (λ state t. t)
        submission-staged_in

  -- The job is beyond staging in, and its round began in the state `previous`.
  abbrev pub Ongoing : JobState → World → Type 0
  Ongoing previous w = Staged w × (w.previous_state ≡ some previous)

  module _ (previous : JobState) where
    pub framed : {A : Type 0} {m : M A} → Keeps Staged m → Framed m → Keeps (Ongoing previous) m
    framed k f = record { at = λ w h. (k.at w h.0, f.same w ∙ h.1) }

    -- The same steps with the variable that no step assigns.
    pub Steps-Ongoing : Steps (Ongoing previous) id
    Steps-Ongoing = record {
      of_quiet = λ q. framed (Steps-Staged.of_quiet q) (record { same = q.frames });
      of_local = λ l. framed (Steps-Staged.of_local l) (record { same = l.previous });
      of_write_state =
          λ state t. framed (Steps-Staged.of_write_state state t) (Framed-write_state state id);
      of_attempt =
          λ from to t. framed (Steps-Staged.of_attempt from to t) (Framed-attempt from to id);
      of_submission = framed Steps-Staged.of_submission (Framed-attempt submitted staging_in id);
      of_mark = λ k. framed (Steps-Staged.of_mark k) (Framed-write_state system_error k);
    }
