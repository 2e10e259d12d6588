-- ===== src/ExecutionManager/Recovery.antt =====
-- What recovery at start-up does to a job.
use simple_cwl_xenon_service.Prelude.{
  ◌≡◌, refl, ℕ, Bool, true, false, not, ◌||◌, arith, Bool-cases, inl, inr,
}
use simple_cwl_xenon_service.Exception.{Exn}
use simple_cwl_xenon_service.JobState.{
  JobState, submitted, staging_in, finished, staging_out, waiting_cr, running_cr, state_eq,
}
use simple_cwl_xenon_service.World.{World, M, read, ◌>>=◌}
use simple_cwl_xenon_service.World.At.{InState, StableTest, InState-Stable, At}
use simple_cwl_xenon_service.World.Triple.{
  Triple, Triple-pure, Triple-weaken, Triple-bind, Triple-read, Triple-write_state, Triple-quiet,
  Triple-raises, At-map,
}
use simple_cwl_xenon_service.JobRunner.Laws.{cancel_job-Quiet}
use simple_cwl_xenon_service.ExecutionManager.Interface.{Backend, AreQuiet}
use simple_cwl_xenon_service.ExecutionManager.Process.{
  when, recover_staging_in, recover_staging_out, recover_cancelling, recover_job,
}

abbrev pub anywhere : JobState → Bool
anywhere s = true

-- Not in STAGING_IN.
unfoldable pub not_staging_in : JobState → Bool
unfolding state_eq
not_staging_in s = not (state_eq s staging_in)

-- In neither of the two states that need recovery.
unfoldable pub recovered : JobState → Bool
unfolding state_eq
recovered s = not (state_eq s staging_in || state_eq s staging_out)

not_staging_in-StableTest : StableTest not_staging_in
unfolding not_staging_in
not_staging_in-StableTest s h = ground arith

recovered-StableTest : StableTest recovered
unfolding recovered
recovered-StableTest s h = ground arith

submitted-not_staging_in : not_staging_in submitted ≡ true
unfolding not_staging_in
submitted-not_staging_in = refl

finished-recovered : recovered finished ≡ true
unfolding recovered
finished-recovered = refl

other-not_staging_in : (s : JobState) → state_eq s staging_in ≡ false → not_staging_in s ≡ true
unfolding not_staging_in
other-not_staging_in s h = ground arith

other-recovered :
    (s : JobState) → not_staging_in s ≡ true → state_eq s staging_out ≡ false → recovered s ≡ true
unfolding not_staging_in recovered
other-recovered s h n = ground arith

module _ (id : ℕ) (backend : Backend) (quiet : AreQuiet backend.services) where
  open backend use {site}

  abbrev Known : Exn → World → Type 0
  Known e = At id (InState anywhere)

  -- `if job.state == ...: m`, where `m` leads to `T` and a state other than the one asked for is in
  -- `T` already.
  when-Triple :
      (S T : JobState → Bool)
      → StableTest S
      → (wanted : JobState) (m : M Unit)
      → ((s : JobState) → S s ≡ true → state_eq s wanted ≡ false → T s ≡ true)
      → Triple (At id (InState S)) m (λ _. At id (InState T)) Known
      → Triple
          (At id (InState S))
          (read (λ r. r.state) id >>= λ state. when (state_eq state wanted) m)
          (λ _. At id (InState T))
          Known
  when-Triple S T stable wanted m other t =
      Triple-bind (Triple-read id (InState-Stable S stable) (λ r. r.state)) λ state.
        elim (Bool-cases (state_eq state wanted)) [
          | inl e ↦ rw e (Triple-weaken (λ w a. At-map (λ r h. h.0) a) t)
          | inr n ↦ rw n (Triple-pure tt (λ w a. At-map (λ r h. other r.state h.0 (rw h.1 n)) a))
        ]

  lose :
      {S : JobState → Bool} {m : M Unit}
      → StableTest S
      → Triple (At id (InState S)) m (λ _. At id (InState S)) (λ _. At id (InState S))
      → Triple (At id (InState S)) m (λ _. At id (InState S)) Known
  lose stable t = Triple-raises (λ e w a. At-map (λ r h. refl) a) t

  recover_staging_in-Triple :
      Triple
        (At id (InState anywhere))
        (recover_staging_in backend id)
        (λ _. At id (InState not_staging_in))
        Known
  unfolding recover_staging_in
  recover_staging_in-Triple =
      when-Triple anywhere not_staging_in (λ s h. refl) staging_in _
        (λ s h n. other-not_staging_in s n)
        (Triple-bind (Triple-quiet id (λ s h. refl) (quiet.delete_remote_dir id)) (λ _.
          Triple-write_state id (InState-Stable anywhere (λ s h. refl)) submitted
            (λ r h. submitted-not_staging_in)))

  recover_staging_out-Triple :
      Triple
        (At id (InState not_staging_in))
        (recover_staging_out backend id)
        (λ _. At id (InState recovered))
        Known
  unfolding recover_staging_out
  recover_staging_out-Triple =
      when-Triple not_staging_in recovered not_staging_in-StableTest staging_out _ other-recovered (
        Triple-bind
          (lose not_staging_in-StableTest
            (Triple-quiet id not_staging_in-StableTest (quiet.delete_output_dir id)))
          (λ _.
            Triple-write_state id (InState-Stable not_staging_in not_staging_in-StableTest) finished
              (λ r h. finished-recovered)))

  recover_cancelling-Triple :
      (pending : JobState)
      → Triple
          (At id (InState recovered))
          (recover_cancelling backend pending id)
          (λ _. At id (InState recovered))
          Known
  unfolding recover_cancelling
  recover_cancelling-Triple pending =
      when-Triple recovered recovered recovered-StableTest pending _ (λ s h n. h)
        (Triple-bind
          (Triple-raises (λ e w a. At-map (λ r h. refl) a)
            (Triple-quiet id recovered-StableTest (cancel_job-Quiet site id)))
          (λ _. Triple-pure tt (λ w h. h)))

  -- After the recovery of a job it is in neither STAGING_IN nor STAGING_OUT, whatever its state was
  -- before and whatever the front end does meanwhile; if an exception leaves the recovery, the job
  -- is still there. The parts are assumed to leave the state of jobs alone, and `uuid4` not to draw
  -- the id again.
  pub recover_job-Triple :
      Triple
        (At id (InState anywhere))
        (recover_job backend id)
        (λ _. At id (InState recovered))
        Known
  unfolding recover_job
  recover_job-Triple = Triple-bind recover_staging_in-Triple λ _.
      Triple-bind recover_staging_out-Triple λ _.
        Triple-bind (recover_cancelling-Triple waiting_cr)
          (λ _. recover_cancelling-Triple running_cr)
