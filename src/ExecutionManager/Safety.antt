-- ===== src/ExecutionManager/Safety.antt =====
-- What the service as a whole never does to a job, whatever the other jobs do: `serve` is the service
-- from its start on, for as many rounds as the fuel allows.
use simple_cwl_xenon_service.Prelude.{ℕ, suc, ◌≡◌, ◌≢◌, arith, inl, inr, Bool, true, Bool-cases}
use simple_cwl_xenon_service.JobState.{
  JobState, staging_in, staging_out, waiting_cr, running_cr, system_error, state_eq, is_final,
}
use simple_cwl_xenon_service.World.{World, M, read, ◌>>=◌}
use simple_cwl_xenon_service.World.At.{InState, InState-Stable, StableTest, At, same_or_ne}
use simple_cwl_xenon_service.World.Gone.{Gone}
use simple_cwl_xenon_service.World.Keeps.{Keeps}
use simple_cwl_xenon_service.World.Triple.{
  Triple, same-Post, Triple-pure, Triple-fact, Triple-bind, Triple-read, At-map,
}
use simple_cwl_xenon_service.ExecutionManager.Interface.{Backend, AreQuiet, AreFramed}
use simple_cwl_xenon_service.ExecutionManager.Final.{
  is_final-StableTest, system_error-is_final, Kept,
}
use simple_cwl_xenon_service.ExecutionManager.Round.{process_one-Triple}
use simple_cwl_xenon_service.ExecutionManager.Bystander.{
  InOrGone, Steps-Gone, Rewinds-Gone, remove-Gone, Steps-InOrGone, Rewinds-InOrGone,
  remove-InOrGone,
}
use simple_cwl_xenon_service.ExecutionManager.Handling.{
  delete_if_asked-Keeps, process_one-Keeps, recover_staging_in-Keeps, recover_job-Keeps,
}
use simple_cwl_xenon_service.ExecutionManager.Loops.{Handling}
use simple_cwl_xenon_service.ExecutionManager.Process.{
  when, process_one, recover_staging_in, recover_staging_out, recover_cancelling, recover_job,
}

not_staging_in : (s : JobState) → is_final s ≡ true → state_eq s staging_in ≡ true → ⊥
unfolding is_final
not_staging_in s h e = ground arith

not_staging_out : (s : JobState) → is_final s ≡ true → state_eq s staging_out ≡ true → ⊥
unfolding is_final
not_staging_out s h e = ground arith

not_waiting_cr : (s : JobState) → is_final s ≡ true → state_eq s waiting_cr ≡ true → ⊥
unfolding is_final
not_waiting_cr s h e = ground arith

not_running_cr : (s : JobState) → is_final s ≡ true → state_eq s running_cr ≡ true → ⊥
unfolding is_final
not_running_cr s h e = ground arith

module _ (id : ℕ) (backend : Backend) (quiet : AreQuiet backend.services) where
  pub of_round-Gone :
      (check_remote : Bool) (j : ℕ) → Keeps (Gone id) (process_one backend check_remote j)
  of_round-Gone check_remote j =
      process_one-Keeps (Gone id) j backend quiet (Steps-Gone id j) (Rewinds-Gone id j) check_remote
        (delete_if_asked-Keeps (Gone id) j backend quiet (Steps-Gone id j) (remove-Gone id j))

  pub of_recovery-Gone : (j : ℕ) → Keeps (Gone id) (recover_job backend j)
  of_recovery-Gone j =
      recover_job-Keeps (Gone id) j backend quiet (Steps-Gone id j) (Rewinds-Gone id j)

  pub Handling-Gone : Handling (Gone id) backend
  Handling-Gone = record {
    of_quiet = λ q. record { at = q.gone id };
    of_local = (Steps-Gone id id).of_local;
    of_round = of_round-Gone;
    of_recovery = of_recovery-Gone;
  }

-- A predicate on one job that recovery and the rounds of that job keep is kept by the handling of all.
module _ (id : ℕ) (S : JobState → Bool) (stable : StableTest S) (marks : S system_error ≡ true)
    (backend : Backend) (quiet : AreQuiet backend.services) where
  -- `if job.state == ...: m`, where no state in `S` is asked for.
  if_state-never :
      (wanted : JobState) (m : M Unit)
      → ((s : JobState) → S s ≡ true → state_eq s wanted ≡ true → ⊥)
      → Triple
          (At id (InState S))
          (read (λ r. r.state) id >>= λ state. when (state_eq state wanted) m)
          (λ _. At id (InState S))
          (λ _. At id (InState S))
  if_state-never wanted m never =
      Triple-bind (Triple-read id (InState-Stable S stable) (λ r. r.state)) λ state.
        elim (Bool-cases (state_eq state wanted)) [
          | inl e ↦
              Triple-fact {X = ⊥} (λ w h. never h.row.0.state h.row.2.0 (rw h.row.2.1 e))
                (λ x. absurd x)
          | inr n ↦ rw n (Triple-pure tt (λ w h. At-map (λ r q. q.0) h))
        ]

  pub recover_staging_in-InOrGone :
      ((s : JobState) → S s ≡ true → state_eq s staging_in ≡ true → ⊥)
      → Keeps (InOrGone id S) (recover_staging_in backend id)
  unfolding recover_staging_in
  recover_staging_in-InOrGone never = record { at = at }
    where
      at : (w : World) → InOrGone id S w → InOrGone id S (recover_staging_in backend id w).1
      at w (inl a) =
          inl (same-Post (At id (InState S)) _ ((if_state-never staging_in _ never).run w a))
      at w (inr g) = inr (
          (recover_staging_in-Keeps (Gone id) id backend quiet (Steps-Gone id id)
              (Rewinds-Gone id id)).at
            w g)

  of_recovery-InOrGone :
      Keeps (InOrGone id S) (recover_job backend id)
      → (j : ℕ) → Keeps (InOrGone id S) (recover_job backend j)
  of_recovery-InOrGone own j = elim (same_or_ne j id) [
    | inl e ↦ rw e own
    | inr ne ↦
        recover_job-Keeps (InOrGone id S) j backend quiet (Steps-InOrGone id S stable marks j ne)
          (Rewinds-InOrGone id S stable marks j ne)
  ]

  of_round-InOrGone :
      ((check_remote : Bool) → Keeps (InOrGone id S) (process_one backend check_remote id))
      → (check_remote : Bool) (j : ℕ) → Keeps (InOrGone id S) (process_one backend check_remote j)
  of_round-InOrGone own check_remote j = elim (same_or_ne j id) [
    | inl e ↦ rw e (own check_remote)
    | inr ne ↦
        let steps = Steps-InOrGone id S stable marks j ne in
        process_one-Keeps (InOrGone id S) j backend quiet steps
          (Rewinds-InOrGone id S stable marks j ne) check_remote
          (delete_if_asked-Keeps (InOrGone id S) j backend quiet steps
            (remove-InOrGone id S stable marks j ne))
  ]

  other_id : suc id ≢ id
  other_id e = ground arith

  pub Handling-InOrGone :
      Keeps (InOrGone id S) (recover_job backend id)
      → ((check_remote : Bool) → Keeps (InOrGone id S) (process_one backend check_remote id))
      → Handling (InOrGone id S) backend
  Handling-InOrGone recovery round = record {
    of_quiet = (Steps-InOrGone id S stable marks (suc id) other_id).of_quiet;
    of_local = (Steps-InOrGone id S stable marks (suc id) other_id).of_local;
    of_round = of_round-InOrGone round;
    of_recovery = of_recovery-InOrGone recovery;
  }

module _ (id : ℕ) (backend : Backend) (quiet : AreQuiet backend.services)
    (framed : AreFramed backend.services) where
  abbrev IsFinal : World → Type 0
  IsFinal = At id (InState is_final)

  skip :
      (wanted : JobState) (m : M Unit)
      → ((s : JobState) → is_final s ≡ true → state_eq s wanted ≡ true → ⊥)
      → Triple IsFinal
          (read (λ r. r.state) id >>= λ state. when (state_eq state wanted) m)
          (λ _. IsFinal)
          (λ _. IsFinal)
  skip = if_state-never id is_final is_final-StableTest system_error-is_final backend quiet

  recover_job-IsFinal : Triple IsFinal (recover_job backend id) (λ _. IsFinal) (λ _. IsFinal)
  unfolding recover_job recover_staging_in recover_staging_out recover_cancelling
  recover_job-IsFinal = Triple-bind (skip staging_in _ not_staging_in) λ _.
      Triple-bind (skip staging_out _ not_staging_out)
        λ _. Triple-bind (skip waiting_cr _ not_waiting_cr) (λ _. skip running_cr _ not_running_cr)

  recover_job-Kept : Keeps (Kept id) (recover_job backend id)
  recover_job-Kept = record { at = at }
    where
      at : (w : World) → Kept id w → Kept id (recover_job backend id w).1
      at w (inl a) = inl (same-Post IsFinal _ (recover_job-IsFinal.run w a))
      at w (inr g) = inr ((of_recovery-Gone id backend quiet id).at w g)

  process_one-Kept : (check_remote : Bool) → Keeps (Kept id) (process_one backend check_remote id)
  process_one-Kept check_remote = record { at = at }
    where
      at : (w : World) → Kept id w → Kept id (process_one backend check_remote id w).1
      at w (inl a) =
          same-Post (Kept id) _ ((process_one-Triple id backend quiet framed check_remote).run w a)
      at w (inr g) = inr ((of_round-Gone id backend quiet check_remote id).at w g)

  pub Handling-Kept : Handling (Kept id) backend
  Handling-Kept =
      Handling-InOrGone id is_final is_final-StableTest system_error-is_final backend quiet
        recover_job-Kept process_one-Kept
