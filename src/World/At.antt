-- ===== src/World/At.antt =====
-- A job seen from the back end: it has one row, which satisfies a predicate, and the front end will
-- not create it again. A predicate that cancel and delete requests keep is stable: it survives
-- interference.
use simple_cwl_xenon_service.Prelude.{
  ℕ, ◌≡◌, refl, sym, subst, ◌≢◌, ◌⊎◌, inl, inr, Bool, true, List, [], ◌∷◌, arith, ◌==◌, ==_iff,
  Bool-cases,
}
use simple_cwl_xenon_service.JobState.{JobState, state_eq}
use simple_cwl_xenon_service.JobStore.{Store, with_state}
use simple_cwl_xenon_service.JobStore.Table.{Row}
use simple_cwl_xenon_service.JobStore.Select.{transit}
use simple_cwl_xenon_service.JobStore.Single.{
  Single, Single-set_var, Single-set_var_ne, Single-try_transition, Single-try_transition_ne,
  Single-create_job,
}
use simple_cwl_xenon_service.Front.{mark_deleted}
use simple_cwl_xenon_service.Front.Steps.{
  Cancellation, of_submitted, of_staging_in, of_waiting, of_running, of_finished, of_staging_out,
  source, target, FrontStep, create, cancel, please_delete, apply_step, run_steps, Apart,
}
use simple_cwl_xenon_service.Front.Cancel.{cancel_target}
use simple_cwl_xenon_service.World.{World, take_batch, interfere}

pub record Stable (P : Row → Type 0) : Type 0 where
  pub of_cancel : (r : Row) → P r → P (with_state (cancel_target r.state) r)
  pub of_delete : (r : Row) → P r → P (mark_deleted r)

-- The state passes a test, which no other column bears on.
abbrev pub InState : (JobState → Bool) → Row → Type 0
InState S r = S r.state ≡ true

abbrev pub StableTest : (JobState → Bool) → Type 0
StableTest S = (s : JobState) → S s ≡ true → S (cancel_target s) ≡ true

pub InState-Stable : (S : JobState → Bool) → StableTest S → Stable (InState S)
InState-Stable S stable = record { of_cancel = λ r h. stable r.state h; of_delete = λ r h. h }

abbrev pub ApartAll : ℕ → List (List FrontStep) → Type 0
ApartAll id [] = Unit
ApartAll id (batch ∷ rest) = Apart id batch × ApartAll id rest

-- The row is there, and satisfies `P`.
abbrev pub Holds : ℕ → (Row → Type 0) → Store → Type 0
Holds id P s = (r : Row) × Single id r s × P r

pub record At (id : ℕ) (P : Row → Type 0) (w : World) : Type 0 where
  pub row : Holds id P w.store
  pub apart : ApartAll id w.env

pub same_or_ne : (j id : ℕ) → (j ≡ id) ⊎ (j ≢ id)
same_or_ne j id = elim (Bool-cases (j == id)) [
  | inl e ↦ inl ((==_iff j id).0 e)
  | inr n ↦ inr (λ e. ground arith)
]

-- One of the six transitions moves a row to the target of its state, or not at all.
transit_cases :
    (c : Cancellation) (r : Row)
    → (transit (source c) (target c) r ≡ r)
      ⊎ (transit (source c) (target c) r ≡ with_state (cancel_target r.state) r)
unfolding state_eq
transit_cases of_submitted r = ground arith
transit_cases of_staging_in r = ground arith
transit_cases of_waiting r = ground arith
transit_cases of_running r = ground arith
transit_cases of_finished r = ground arith
transit_cases of_staging_out r = ground arith

transit-Stable :
    (P : Row → Type 0)
    → Stable P
    → (c : Cancellation) (r : Row) → P r
    → P (transit (source c) (target c) r)
transit-Stable P stable c r h = elim (transit_cases c r) [
  | inl e ↦ subst P (sym e) h
  | inr e ↦ subst P (sym e) (stable.of_cancel r h)
]

module _ (id : ℕ) (P : Row → Type 0) (stable : Stable P) where
  cancel-Holds :
      (c : Cancellation) (j : ℕ) (s : Store) → Holds id P s → Holds id P (apply_step (cancel c j) s)
  unfolding apply_step
  cancel-Holds c j s (r, one, h) = elim (same_or_ne j id) [
    | inl e ↦ rw e (
      transit (source c) (target c) r,
      Single-try_transition id r s one (source c) (target c),
      transit-Stable P stable c r h,
    )
    | inr ne ↦ (r, Single-try_transition_ne id r s one (source c) (target c) j ne, h)
  ]

  please_delete-Holds :
      (j : ℕ) (s : Store) → Holds id P s → Holds id P (apply_step (please_delete j) s)
  unfolding apply_step
  please_delete-Holds j s (r, one, h) = elim (same_or_ne j id) [
    | inl e ↦
        rw e
          (mark_deleted r, Single-set_var id r s one mark_deleted (λ _. refl), stable.of_delete r h)
    | inr ne ↦ (r, Single-set_var_ne id r s one mark_deleted (λ _. refl) j ne, h)
  ]

  run_steps-Holds :
      (steps : List FrontStep) (s : Store)
      → Apart id steps
      → Holds id P s
      → Holds id P (run_steps steps s)
  unfolding run_steps
  run_steps-Holds [] s apart h = h
  run_steps-Holds (create uuid time name workflow job_input ∷ steps) s apart (r, one, h) =
      run_steps-Holds steps _ apart.1
        (r, Single-create_job id r s one uuid time name workflow job_input apart.0, h)
  run_steps-Holds (cancel c j ∷ steps) s apart h =
      run_steps-Holds steps _ apart (cancel-Holds c j s h)
  run_steps-Holds (please_delete j ∷ steps) s apart h =
      run_steps-Holds steps _ apart (please_delete-Holds j s h)

take_batch-At :
    (id : ℕ) (P : Row → Type 0)
    → Stable P
    → (env : List (List FrontStep)) (w : World) → ApartAll id env
    → At id P w
    → At id P (take_batch env w)
take_batch-At id P stable [] w apart a = a
take_batch-At id P stable (batch ∷ rest) w apart a = record {
  row = run_steps-Holds id P stable batch w.store apart.0 a.row;
  apart = apart.1;
}

-- Whatever the front end does before a statement, a stable predicate still holds.
pub interfere-At :
    (id : ℕ) (P : Row → Type 0) → Stable P → (w : World) → At id P w → At id P (interfere w)
unfolding interfere
interfere-At id P stable w a = take_batch-At id P stable w.env w a.apart a
