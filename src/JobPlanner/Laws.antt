-- ===== src/JobPlanner/Laws.antt =====
-- Planning a job moves it nowhere.
use simple_cwl_xenon_service.Prelude.{ℕ, String, Bool, Option, none, some, List, [], ◌∷◌, refl}
use simple_cwl_xenon_service.Prelude.Int.{ℤ}
use simple_cwl_xenon_service.Exception.{Outcome}
use simple_cwl_xenon_service.Value.{Value}
use simple_cwl_xenon_service.World.{Site, World}
use simple_cwl_xenon_service.JobState.{JobState}
use simple_cwl_xenon_service.World.At.{InState, StableTest, At}
use simple_cwl_xenon_service.World.Quiet.{
  Quiet, Ordinary, Quiet-bind, Quiet-lift, Quiet-pure, quiet_rules,
}
use simple_cwl_xenon_service.JobPlanner.{
  Requirement, Requirements, set_required_num_cores, set_time_limit, known, check_steps, plan_cores,
  plan_time, plan_job,
}

set_required_num_cores-Ordinary : (n : ℤ) → Ordinary (set_required_num_cores n)
set_required_num_cores-Ordinary n = record {
  keeps_id = λ r. refl;
  keeps_state = λ r. refl;
  keeps_request = λ r. refl;
}

set_time_limit-Ordinary : (n : ℤ) → Ordinary (set_time_limit n)
set_time_limit-Ordinary n = record {
  keeps_id = λ r. refl;
  keeps_state = λ r. refl;
  keeps_request = λ r. refl;
}

module _ (safe_load : String → Outcome Value) (as_column : Value → Outcome ℤ)
    (show : Value → String) (site : Site) (reqs : Requirements) where
  known-Quiet :
      (id : ℕ) (step : Value) (found : Option Requirement)
      → Quiet (known safe_load as_column show site reqs id step found)
  known-Quiet id step none = search quiet_rules depth 8
  known-Quiet id step (some r) = search quiet_rules

  check_steps-Quiet :
      (id : ℕ) (steps : List Value)
      → Quiet (check_steps safe_load as_column show site reqs id steps)
  unfolding check_steps
  check_steps-Quiet id [] = search quiet_rules
  check_steps-Quiet id (step ∷ steps) =
      let rest = check_steps-Quiet id steps in
      Quiet-bind _ _ (Quiet-lift _) (λ found.
        Quiet-bind _ _ (known-Quiet id step found) (λ r. Quiet-bind _ _ rest (λ rs. Quiet-pure _)))

  plan_cores-Quiet :
      (id : ℕ) (steps : List Requirement)
      → Quiet (plan_cores safe_load as_column show site reqs id steps)
  unfolding plan_cores
  plan_cores-Quiet id steps = search (quiet_rules, set_required_num_cores-Ordinary) depth 20

  plan_time-Quiet :
      (id : ℕ) (steps : List Requirement)
      → Quiet (plan_time safe_load as_column show site reqs id steps)
  unfolding plan_time
  plan_time-Quiet id steps = search (quiet_rules, set_time_limit-Ordinary) depth 20

  pub plan_job-Quiet : (id : ℕ) → Quiet (plan_job safe_load as_column show site reqs id)
  unfolding plan_job
  plan_job-Quiet id =
      search (quiet_rules, check_steps-Quiet, plan_cores-Quiet, plan_time-Quiet) depth 14

  -- Planning a job moves it nowhere, whether it succeeds or raises: a set of states that cancel
  -- requests do not leave still holds the job's state after it, for every job, with any front-end
  -- statements meanwhile. `uuid4` is assumed not to draw the observed job's id again.
  pub plan_job-InState :
      (id j : ℕ) (S : JobState → Bool)
      → StableTest S
      → (w : World) → At j (InState S) w
      → At j (InState S) (plan_job safe_load as_column show site reqs id w).1
  plan_job-InState id j S stable w a = (plan_job-Quiet id).at j S stable w a
