-- ===== src/ExecutionManager/Concluding.antt =====
-- What cancelling and destaging a job leave behind, whatever the front end and the outside do
-- meanwhile.
use simple_cwl_xenon_service.Prelude.{
  ℕ, ◌≡◌, refl, sym, ◌∙◌, Bool, true, false, not, ◌||◌, String, [], ◌∷◌, arith,
}
use simple_cwl_xenon_service.Exception.{Exn}
use simple_cwl_xenon_service.JobState.{
  JobState, finished, staging_out, staging_out_cr, running_cr, cancelled, system_error, state_eq,
  state_in, is_final, cancellation_active,
}
use simple_cwl_xenon_service.JobState.Laws.{state_eq_refl}
use simple_cwl_xenon_service.JobStore.Table.{Row}
use simple_cwl_xenon_service.Cwl.{get_cwltool_result}
use simple_cwl_xenon_service.World.{World, attempt, ◌>>=◌, unless}
use simple_cwl_xenon_service.World.At.{Stable, InState, StableTest, InState-Stable, At}
use simple_cwl_xenon_service.World.Triple.{
  Triple, Attempted, Triple-pure, Triple-if, Triple-bind, Triple-unless, Triple-read,
  Triple-write_state, Triple-attempt, Triple-log, Triple-quiet, At-map,
}
use simple_cwl_xenon_service.JobRunner.Laws.{cancel_job-Quiet}
use simple_cwl_xenon_service.ExecutionManager.Interface.{Backend, AreQuiet}
use simple_cwl_xenon_service.ExecutionManager.{
  cancel, conclude_destaging, destage_owned, destage_job,
}

-- The states in which `_cancel_job` leaves a job.
unfoldable pub cancel_ended : JobState → Bool
unfolding state_in
cancel_ended s = state_in s (cancelled ∷ running_cr ∷ [])

unfoldable pub finishing : JobState → Bool
unfolding state_in
finishing s = state_in s (finished ∷ cancelled ∷ [])

unfoldable pub destaging : JobState → Bool
unfolding state_in
destaging s = state_in s (staging_out ∷ staging_out_cr ∷ [])

-- A destaged job is cancelled or has the result that the runner's log shows.
unfoldable pub destaged : String → JobState → Bool
destaged cwltool_log s = state_eq s cancelled || state_eq s (get_cwltool_result cwltool_log)

abbrev at_staging_out_cr : JobState → Bool
at_staging_out_cr s = state_eq s staging_out_cr

abbrev nowhere : JobState → Bool
nowhere s = false

pub cancellation_active-StableTest : StableTest cancellation_active
unfolding cancellation_active
cancellation_active-StableTest s h = ground arith

cancel_ended-StableTest : StableTest cancel_ended
unfolding cancel_ended
cancel_ended-StableTest s h = ground arith

finishing-StableTest : StableTest finishing
unfolding finishing
finishing-StableTest s h = ground arith

destaging-StableTest : StableTest destaging
unfolding destaging
destaging-StableTest s h = ground arith

at_staging_out_cr-StableTest : StableTest at_staging_out_cr
unfolding state_eq
at_staging_out_cr-StableTest s h = ground arith

cancelled_if_not_finished :
    (cwltool_log : String) (s : JobState)
    → finishing s ≡ true
    → state_eq s finished ≡ false
    → destaged cwltool_log s ≡ true
unfolding finishing destaged
cancelled_if_not_finished cwltool_log s h n = ground arith

staging_out_cr-of-destaging :
    (s : JobState)
    → destaging s ≡ true
    → state_eq s staging_out ≡ false
    → at_staging_out_cr s ≡ true
unfolding destaging
staging_out_cr-of-destaging s h n = ground arith

destaged-result :
    (cwltool_log : String) → destaged cwltool_log (get_cwltool_result cwltool_log) ≡ true
unfolding destaged
destaged-result cwltool_log = ground (arith, state_eq_refl (get_cwltool_result cwltool_log))

destaged-cancelled : (cwltool_log : String) → destaged cwltool_log cancelled ≡ true
unfolding destaged
destaged-cancelled cwltool_log = ground (arith, state_eq_refl cancelled)

running_cr-ended : cancel_ended running_cr ≡ true
unfolding cancel_ended
running_cr-ended = refl

cancelled-ended : cancel_ended cancelled ≡ true
unfolding cancel_ended
cancelled-ended = refl

staging_out-destaging : destaging staging_out ≡ true
unfolding destaging
staging_out-destaging = refl

-- Whatever the log says, the state that a destaged job gets is final.
pub destaged-is_final :
    (cwltool_log : String) (s : JobState) → destaged cwltool_log s ≡ true → is_final s ≡ true
unfolding destaged is_final get_cwltool_result
destaged-is_final cwltool_log s h = ground arith

module _ (id : ℕ) (backend : Backend) where
  open backend use {site}

  -- From a state that is pending cancellation, `_cancel_job` leaves the job in CANCELLED or
  -- RUNNING_CR, whatever the front end does meanwhile and whatever the scheduler replies; if the
  -- scheduler raises, the job is still pending cancellation.
  pub cancel-Triple :
      Triple
        (At id (InState cancellation_active))
        (cancel backend id)
        (λ _. At id (InState cancel_ended))
        (λ _. At id (InState cancellation_active))
  unfolding cancel
  cancel-Triple = Triple-bind (Triple-log id pending site _ _) λ _.
      Triple-bind (Triple-quiet id cancellation_active-StableTest (cancel_job-Quiet site id))
        λ still_running.
          Triple-if still_running
            (λ _. Triple-write_state id pending running_cr (λ r h. running_cr-ended))
            (λ _.
              Triple-bind
                (Triple-write_state id pending {P' = InState cancel_ended} cancelled
                  (λ r h. cancelled-ended))
                (λ _. Triple-log id (InState-Stable cancel_ended cancel_ended-StableTest) site _ _))
    where
      pending : Stable (InState cancellation_active)
      pending = InState-Stable cancellation_active cancellation_active-StableTest

module _ (id : ℕ) (backend : Backend) (quiet : AreQuiet backend.services)
    (cwltool_log : String) where
  open backend use {site}

  abbrev Destaging : World → Type 0
  Destaging = At id (InState destaging)

  abbrev Destaged : World → Type 0
  Destaged = At id (InState (destaged cwltool_log))

  abbrev Interrupted : Exn → World → Type 0
  Interrupted e = Destaging

  out : Stable (InState destaging)
  out = InState-Stable destaging destaging-StableTest

  conclude_destaging-Destaged :
      Triple Destaging
        (conclude_destaging backend (get_cwltool_result cwltool_log) id)
        (λ _. Destaged)
        Interrupted
  unfolding conclude_destaging
  conclude_destaging-Destaged =
      Triple-bind
        (Triple-attempt id out (InState (destaged cwltool_log)) (InState at_staging_out_cr)
          staging_out (get_cwltool_result cwltool_log) (λ r h e. destaged-result cwltool_log)
          (λ r h n. staging_out_cr-of-destaging r.state h n))
        (Triple-unless (λ w h. h)
          (Triple-bind
            (Triple-attempt id (InState-Stable at_staging_out_cr at_staging_out_cr-StableTest)
              (InState (destaged cwltool_log)) (InState nowhere) staging_out_cr cancelled
              (λ r h e. destaged-cancelled cwltool_log) (λ r h n. cc))
            (Triple-unless (λ w h. h)
              (Triple-write_state id (InState-Stable nowhere (λ s h. h)) system_error
                (λ r h. cc)))))

  destage_owned-Destaged :
      Triple Destaging (destage_owned backend id cwltool_log) (λ _. Destaged) Interrupted
  unfolding destage_owned
  destage_owned-Destaged = Triple-bind (Triple-log id out site _ _) λ _.
      Triple-bind (Triple-quiet id destaging-StableTest (quiet.destage_job_output id)) λ files.
        Triple-bind (Triple-quiet id destaging-StableTest (quiet.publish_job_output id files))
          λ _. Triple-bind (Triple-log id out site _ _) (λ _. conclude_destaging-Destaged)

  -- A finished job, or one that was cancelled since, whose runner's log is `cwltool_log`.
  abbrev pub ToDestage : Row → Type 0
  ToDestage r = InState finishing r × (r.remote_error ≡ cwltool_log)

  to_destage : Stable ToDestage
  to_destage = record {
    of_cancel = λ r h. (finishing-StableTest r.state h.0, h.1);
    of_delete = λ r h. h;
  }

  own_and_destage :
      Triple
        (At id ToDestage)
        (attempt finished staging_out id >>= λ owned.
          unless (not owned) (destage_owned backend id cwltool_log))
        (λ _. Destaged)
        Interrupted
  own_and_destage =
      Triple-bind
        (Triple-attempt id to_destage (InState destaging) (InState (destaged cwltool_log)) finished
          staging_out (λ r h e. staging_out-destaging)
          (λ r h n. cancelled_if_not_finished cwltool_log r.state h.0 n))
        unless_owned
    where
      unless_owned :
          (owned : Bool)
          → Triple
              (Attempted id (InState destaging) (InState (destaged cwltool_log)) owned)
              (unless (not owned) (destage_owned backend id cwltool_log))
              (λ _. Destaged)
              Interrupted
      unless_owned true = destage_owned-Destaged
      unless_owned false = Triple-pure tt (λ w h. h)

  with_log :
      (v : String)
      → Triple
          (At id (λ r. ToDestage r × (r.remote_error ≡ v)))
          (attempt finished staging_out id >>= λ owned.
            unless (not owned) (destage_owned backend id v))
          (λ _. Destaged)
          Interrupted
  with_log v = record {
    run = λ w a. rw (sym a.row.2.1 ∙ a.row.2.0.1) (own_and_destage.run w (At-map (λ r h. h.0) a));
  }

  -- Destaging a job that was in FINISHED leaves it in CANCELLED or in the state that
  -- `get_cwltool_result` gives for its log, whatever the front end does meanwhile and whatever the
  -- outside replies; if an exception leaves the method, the job is in STAGING_OUT or STAGING_OUT_CR.
  -- The parts are assumed to leave the state of jobs alone, and `uuid4` not to draw the id again.
  pub destage_job-Triple :
      Triple (At id ToDestage) (destage_job backend id) (λ _. Destaged) Interrupted
  unfolding destage_job
  destage_job-Triple = Triple-bind (Triple-read id to_destage (λ r. r.remote_error)) with_log
