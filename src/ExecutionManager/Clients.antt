-- ===== src/ExecutionManager/Clients.antt =====
-- What clients are told of a job from round to round: first Waiting, then Running, then how it ended.
use text.Mathlib.Text.{◌==◌ as str_eq}
use simple_cwl_xenon_service.Prelude.{
  ℕ, ◌≡◌, refl, arith, inl, inr, String, Bool, true, false, not, ◌||◌, Bool-cases, leb,
  if◌then◌else◌,
}
use simple_cwl_xenon_service.Prelude.Int.{ℤ}
use simple_cwl_xenon_service.JobState.{JobState, submitted, state_eq, is_final, to_cwl_state_string}
use simple_cwl_xenon_service.JobState.Laws.{state_eq_iff}
use simple_cwl_xenon_service.World.{World}
use simple_cwl_xenon_service.World.At.{InState, At}
use simple_cwl_xenon_service.World.Keeps.{Steps, staged_in}
use simple_cwl_xenon_service.World.Triple.{At-map}
use simple_cwl_xenon_service.RemoteApi.Installing.{Repeats}
use simple_cwl_xenon_service.ExecutionManager.Interface.{Backend, AreQuiet}
use simple_cwl_xenon_service.ExecutionManager.Recovery.{anywhere}
use simple_cwl_xenon_service.ExecutionManager.Bystander.{InOrGone, moved-InOrGone}
use simple_cwl_xenon_service.ExecutionManager.Subject.{
  write_state-Subject, remove-Subject, Steps-Subject,
}
use simple_cwl_xenon_service.ExecutionManager.Handling.{
  Rewinds, delete_if_asked-Keeps, process_one-Keeps, recover_job-Keeps,
}
use simple_cwl_xenon_service.ExecutionManager.Loops.{Handling}
use simple_cwl_xenon_service.ExecutionManager.Safety.{Handling-InOrGone}
use simple_cwl_xenon_service.ExecutionManager.Parts.{Parts, backend, services-AreQuiet}
use simple_cwl_xenon_service.ExecutionManager.Serving.{
  Moment, serve_from, serve_from-Keeps, serve-Kept, serve-Staged,
}

-- How far a job is by the state that clients see.
unfoldable pub phase : String → ℕ
phase cwl_state =
    if str_eq cwl_state "Waiting" then 0 else if str_eq cwl_state "Running" then 1 else 2

-- A client that saw the job in the state `before` sees it no less far in the state `after`.
unfoldable pub no_less_far : JobState → JobState → Bool
unfolding phase to_cwl_state_string
no_less_far before after =
    leb (phase (to_cwl_state_string before)) (phase (to_cwl_state_string after))

phase_at_most : (s : JobState) → leb (phase (to_cwl_state_string s)) 2 ≡ true
unfolding phase to_cwl_state_string
phase_at_most submitted = refl
phase_at_most _ = refl

phase_of_final : (s : JobState) → (not (is_final s) || leb 2 (phase (to_cwl_state_string s))) ≡ true
unfolding phase to_cwl_state_string is_final
phase_of_final submitted = refl
phase_of_final _ = refl

phase_before_final : (s : JobState) → (is_final s || leb (phase (to_cwl_state_string s)) 1) ≡ true
unfolding phase to_cwl_state_string is_final
phase_before_final submitted = refl
phase_before_final _ = refl

phase_of_staged_in :
    (s : JobState) → (not (staged_in s) || leb 1 (phase (to_cwl_state_string s))) ≡ true
unfolding phase to_cwl_state_string staged_in
phase_of_staged_in submitted = refl
phase_of_staged_in _ = refl

phase_before_staged_in :
    (s : JobState) → (staged_in s || leb (phase (to_cwl_state_string s)) 0) ≡ true
unfolding phase to_cwl_state_string staged_in
phase_before_staged_in submitted = refl
phase_before_staged_in _ = refl

final-no_less_far :
    (before after : JobState) → is_final after ≡ true → no_less_far before after ≡ true
unfolding no_less_far
final-no_less_far before after h = ground (arith, phase_at_most before, phase_of_final after)

staged_in-no_less_far :
    (before after : JobState)
    → is_final before ≡ false
    → staged_in after ≡ true
    → no_less_far before after ≡ true
unfolding no_less_far
staged_in-no_less_far before after n h =
    ground (arith, phase_before_final before, phase_of_staged_in after)

waiting-no_less_far :
    (before after : JobState) → staged_in before ≡ false → no_less_far before after ≡ true
unfolding no_less_far
waiting-no_less_far before after n = ground (arith, phase_before_staged_in before)

InOrGone-map :
    {id : ℕ} {S T : JobState → Bool} {w : World}
    → ((s : JobState) → S s ≡ true → T s ≡ true)
    → InOrGone id S w
    → InOrGone id T w
InOrGone-map f (inl a) = inl (At-map (λ r h. f r.state h) a)
InOrGone-map f (inr g) = inr g

exactly-state :
    (S : JobState → Bool) (before s : JobState)
    → S before ≡ true
    → state_eq s before ≡ true
    → S s ≡ true
exactly-state S before s h e = rw ((state_eq_iff s before).0 e) h

-- A job that has a row has one row or none ever after.
module _ (id : ℕ) (backend : Backend) (quiet : AreQuiet backend.services) where
  abbrev Present : World → Type 0
  Present = InOrGone id anywhere

  steps : Steps Present id
  steps = Steps-Subject id anywhere (λ s h. refl) refl (λ state t. refl) (λ r h. refl)

  rewinds : Rewinds Present id
  rewinds = record {
    of_begin =
        λ state. record { at = λ w. moved-InOrGone id anywhere (λ s h. refl) refl _ w refl refl };
    of_reset = λ state. write_state-Subject id anywhere (λ s h. refl) refl state refl;
  }

  Handling-Present : Handling Present backend
  Handling-Present =
      Handling-InOrGone id anywhere (λ s h. refl) refl backend quiet
        (recover_job-Keeps Present id backend quiet steps rewinds)
        λ check_remote. process_one-Keeps Present id backend quiet steps rewinds check_remote (
          delete_if_asked-Keeps Present id backend quiet steps
            (remove-Subject id anywhere (λ s h. refl) refl))

-- What clients are told of a job, taken before the start of the service or between two rounds of its
-- loop, does not go back in any number of further rounds: where they were told Running, they are not
-- told Waiting then, and where they were told how the job ended, neither, unless the job is deleted.
-- This holds whatever front end, scheduler and file systems do and whatever exceptions are raised; what
-- they are told in the middle of a round is not compared. `uuid4` is assumed not to draw the id
-- again, and the decorator `retry` to do no more than run a method again.
pub serve-no_less_far :
    (id : ℕ) (parts : Parts) (perf_counter : ℕ → ℤ) (refresh second : ℤ)
    → Repeats parts.retry
    → (moment : Moment) (fuel : ℕ) (before : JobState) (w : World)
    → At id (InState (λ s. state_eq s before)) w
    → InOrGone id
        (no_less_far before)
        (serve_from parts perf_counter refresh second moment fuel w).1
serve-no_less_far id parts perf_counter refresh second repeats moment fuel before w a =
    elim (Bool-cases (is_final before)) [
      | inl e ↦ InOrGone-map (final-no_less_far before) (
          serve-Kept id parts perf_counter refresh second repeats moment fuel w
            (InOrGone-map (λ s. exactly-state is_final before s e) (inl a)))
      | inr n ↦ elim (Bool-cases (staged_in before)) [
        | inl e ↦
            InOrGone-map (λ s. staged_in-no_less_far before s n)
              (serve-Staged id parts perf_counter refresh second repeats moment fuel w
                (InOrGone-map (λ s. exactly-state staged_in before s e) (inl a)))
        | inr m ↦
            InOrGone-map (λ s h. waiting-no_less_far before s m)
              ((serve_from-Keeps parts perf_counter refresh second repeats moment fuel
                  (Present id (backend parts) (services-AreQuiet parts))
                  (Handling-Present id (backend parts) (services-AreQuiet parts))).at
                w (inl (At-map (λ r h. refl) a)))
      ]
    ]
