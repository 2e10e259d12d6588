-- ===== src/ExecutionManager/Staging.antt =====
-- What staging and starting a job leaves behind, whatever the front end and the outside do meanwhile.
use simple_cwl_xenon_service.Prelude.{
  ℕ, ◌≡◌, refl, Bool, true, false, not, Bool-cases, inl, inr, Option, none, some, String, List, [],
  ◌∷◌, arith,
}
use Prim.Native.String.{◌++◌}
use simple_cwl_xenon_service.Exception.{Exn, file_not_found, value_error, invalid_job, first_arg}
use simple_cwl_xenon_service.JobState.{
  JobState, staging_in, waiting, staging_in_cr, waiting_cr, cancelled, permanent_failure,
  system_error, state_eq, state_in,
}
use simple_cwl_xenon_service.JobStore.Table.{Row}
use simple_cwl_xenon_service.Cwl.{is_workflow}
use simple_cwl_xenon_service.Cwl.Files.{File}
use simple_cwl_xenon_service.World.{World, M, pure, ◌>>◌, unless, read}
use simple_cwl_xenon_service.World.At.{Stable, InState, StableTest, InState-Stable, At}
use simple_cwl_xenon_service.World.Triple.{
  Triple, Attempted, Triple-pure, Triple-raise, Triple-lift, Triple-weaken, Triple-bind, Triple-try,
  Triple-read, Triple-write_state, Triple-attempt, Triple-log, Triple-quiet, Triple-unless,
  Triple-forget, At-map,
}
use simple_cwl_xenon_service.JobRunner.Laws.{start_job-Quiet}
use simple_cwl_xenon_service.ExecutionManager.Interface.{Backend, AreQuiet}
use simple_cwl_xenon_service.ExecutionManager.{
  info, fail_permanently, input_handler, log_versions, conclude_start, start_staged,
  staging_handler, stage_files, stage_planned, planning_handler, plan, plan_and_stage,
  unless_cancelled, check_valid_and_stage, check_and_stage, resolve, resolved_then,
  stage_and_start_job,
}

-- The states of a job that the back end is staging in.
unfoldable pub staging : JobState → Bool
unfolding state_in
staging s = state_in s (staging_in ∷ staging_in_cr ∷ [])

-- The states in which staging and starting leaves a job.
unfoldable pub started : JobState → Bool
unfolding state_in
started s = state_in s (waiting ∷ waiting_cr ∷ cancelled ∷ permanent_failure ∷ [])

abbrev at_staging_in_cr : JobState → Bool
at_staging_in_cr s = state_eq s staging_in_cr

abbrev nowhere : JobState → Bool
nowhere s = false

pub staging-StableTest : StableTest staging
unfolding staging
staging-StableTest s h = ground arith

started-StableTest : StableTest started
unfolding started
started-StableTest s h = ground arith

at_staging_in_cr-StableTest : StableTest at_staging_in_cr
unfolding state_eq
at_staging_in_cr-StableTest s h = ground arith

staging_in_cr-of-staging :
    (s : JobState) → staging s ≡ true → state_eq s staging_in ≡ false → at_staging_in_cr s ≡ true
unfolding staging
staging_in_cr-of-staging s h n = ground arith

not_permanent_failure : (s : JobState) → staging s ≡ true → state_eq s permanent_failure ≡ true → ⊥
unfolding staging
not_permanent_failure s h e = ground arith

module _ (id : ℕ) (backend : Backend) (quiet : AreQuiet backend.services) where
  open backend use {site, runner, services, safe_load}

  abbrev Staging : World → Type 0
  Staging = At id (InState staging)

  abbrev Started : World → Type 0
  Started = At id (InState started)

  -- While the job is staged in, an exception leaves it there.
  abbrev Escapes : Exn → World → Type 0
  Escapes e = Staging

  stays : Stable (InState staging)
  stays = InState-Stable staging staging-StableTest

  in_cr : Stable (InState at_staging_in_cr)
  in_cr = InState-Stable at_staging_in_cr at_staging_in_cr-StableTest

  gone : Stable (InState nowhere)
  gone = InState-Stable nowhere (λ s h. h)

  info-Staging :
      (message : String) → Triple Staging (info backend id message) (λ _. Staging) Escapes
  info-Staging message = Triple-log id stays site _ (message ∷ [])

  fail_permanently-Started :
      (message : String)
      → Triple Staging (fail_permanently backend id message) (λ _. Started) Escapes
  unfolding fail_permanently
  fail_permanently-Started message =
      Triple-bind (Triple-log id stays site _ (message ∷ []))
        λ _. Triple-write_state id stays permanent_failure (λ r h. unfold started in refl)

  input_handler-Started :
      (e : Exn) → Triple Staging (input_handler backend id e) (λ _. Started) Escapes
  unfolding input_handler
  input_handler-Started (file_not_found m a) = fail_permanently-Started _
  input_handler-Started (value_error a) =
      Triple-bind (Triple-lift (first_arg (value_error a)) (λ reason w e h. h) (λ x w e h. h))
        (λ reason. fail_permanently-Started ("Invalid input: " ++ reason))
  input_handler-Started e = Triple-raise e (λ w h. h)

  log_versions-Staging :
      (versions : List String)
      → Triple Staging (log_versions backend id versions) (λ _. Staging) Escapes
  unfolding log_versions
  log_versions-Staging [] = Triple-pure tt (λ w h. h)
  log_versions-Staging (version ∷ versions) =
      Triple-bind (info-Staging _) (λ _. log_versions-Staging versions)

  conclude_start-Started : Triple Staging (conclude_start backend id) (λ _. Started) Escapes
  unfolding conclude_start
  conclude_start-Started =
      Triple-bind
        (Triple-attempt id stays (InState started) (InState at_staging_in_cr) staging_in waiting
          (λ r h e. unfold started in refl) (λ r h n. staging_in_cr-of-staging r.state h n))
        (Triple-unless (λ w h. h)
          (Triple-bind
            (Triple-attempt id in_cr (InState started) (InState nowhere) staging_in_cr waiting_cr
              (λ r h e. unfold started in refl) (λ r h n. cc))
            (Triple-unless (λ w h. h)
              (Triple-bind
                (Triple-forget (λ v w a. At-map (λ r h. h.0) a)
                  (Triple-read id gone (λ r. r.state)))
                (λ _. Triple-write_state id gone system_error (λ r h. cc))))))

  start_staged-Started : Triple Staging (start_staged backend id) (λ _. Started) Escapes
  unfolding start_staged
  start_staged-Started = Triple-bind (info-Staging _) λ _. Triple-bind (info-Staging _) λ _.
      Triple-bind (Triple-quiet id staging-StableTest quiet.get_projects) λ versions.
        Triple-bind (log_versions-Staging versions) λ _.
          Triple-bind (Triple-quiet id staging-StableTest (start_job-Quiet site runner id))
            λ _. Triple-bind (info-Staging _) (λ _. conclude_start-Started)

  -- The job is still staged in, or it has failed and the stage is left.
  abbrev StagingOr : Bool → World → Type 0
  StagingOr true = Staging
  StagingOr false = Started

  fail-StagingOr :
      (message : String)
      → Triple Staging (fail_permanently backend id message >> pure false) StagingOr Escapes
  fail-StagingOr message =
      Triple-bind (fail_permanently-Started message) (λ _. Triple-pure false (λ w h. h))

  staging_handler-StagingOr :
      (e : Exn) → Triple Staging (staging_handler backend id e) StagingOr Escapes
  unfolding staging_handler
  staging_handler-StagingOr (file_not_found m a) = fail-StagingOr _
  staging_handler-StagingOr e = Triple-raise e (λ w h. h)

  stage_files-StagingOr :
      (files : List File) (workflow : String)
      → Triple Staging (stage_files backend id files workflow) StagingOr Escapes
  unfolding stage_files
  stage_files-StagingOr files workflow =
      Triple-try
        (Triple-bind (Triple-quiet id staging-StableTest (quiet.stage_job id files workflow))
          (λ _. Triple-pure true (λ w h. h)))
        staging_handler-StagingOr

  unless_failed :
      {m : M Unit}
      → Triple Staging m (λ _. Started) Escapes
      → (b : Bool) → Triple (StagingOr b) (unless (not b) m) (λ _. Started) Escapes
  unless_failed t true = t
  unless_failed t false = Triple-pure tt (λ w h. h)

  -- A column that is read while the job is staged in.
  read-Staging :
      {A : Type 0} (column : Row → A) → Triple Staging (read column id) (λ _. Staging) Escapes
  read-Staging column = Triple-forget (λ v w a. At-map (λ r h. h.0) a) (Triple-read id stays column)

  stage_planned-Started :
      (files : List File) → Triple Staging (stage_planned backend id files) (λ _. Started) Escapes
  unfolding stage_planned
  stage_planned-Started files = Triple-bind (info-Staging _) λ _.
      Triple-bind (read-Staging (λ r. r.workflow_content)) λ content.
        Triple-bind (Triple-quiet id staging-StableTest (quiet.translate_workflow content))
          λ workflow.
            Triple-bind (stage_files-StagingOr files workflow) (unless_failed start_staged-Started)

  planning_handler-StagingOr :
      (e : Exn) → Triple Staging (planning_handler backend id e) StagingOr Escapes
  unfolding planning_handler
  planning_handler-StagingOr invalid_job = fail-StagingOr _
  planning_handler-StagingOr e = Triple-raise e (λ w h. h)

  plan-StagingOr : Triple Staging (plan backend id) StagingOr Escapes
  unfolding plan
  plan-StagingOr =
      Triple-try
        (Triple-bind (Triple-quiet id staging-StableTest (quiet.plan_job id))
          (λ _. Triple-pure true (λ w h. h)))
        planning_handler-StagingOr

  -- The test for a permanent failure after planning never holds.
  unless_permanent_failure :
      (files : List File) (state : JobState)
      → Triple
          (At id (λ r. InState staging r × (r.state ≡ state)))
          (unless (state_eq state permanent_failure) (stage_planned backend id files))
          (λ _. Started)
          Escapes
  unless_permanent_failure files state = elim (Bool-cases (state_eq state permanent_failure)) [
    | inl e ↦ rw e (
        Triple-pure tt
          (λ w a. At-map (λ r h. absurd (not_permanent_failure r.state h.0 (rw h.1 e))) a))
    | inr n ↦ rw n (Triple-weaken (λ w a. At-map (λ r h. h.0) a) (stage_planned-Started files))
  ]

  plan_and_stage-Started :
      (files : List File) → Triple Staging (plan_and_stage backend id files) (λ _. Started) Escapes
  unfolding plan_and_stage
  plan_and_stage-Started files = Triple-bind (info-Staging _) λ _. Triple-bind plan-StagingOr (
      unless_failed
        (Triple-bind (Triple-read id stays (λ r. r.state)) (unless_permanent_failure files)))

  unless_cancelled-Started :
      (files : List File) (b : Bool)
      → Triple
          (Attempted id (InState started) (InState staging) b)
          (unless_cancelled backend id files b)
          (λ _. Started)
          Escapes
  unfolding unless_cancelled
  unless_cancelled-Started files true =
      Triple-log id (InState-Stable started started-StableTest) site _ _
  unless_cancelled-Started files false = plan_and_stage-Started files

  check_valid :
      (files : List File) (valid : Bool)
      → Triple Staging (check_valid_and_stage backend id files valid) (λ _. Started) Escapes
  unfolding check_valid_and_stage
  check_valid files false = fail_permanently-Started _
  check_valid files true =
      Triple-bind
        (Triple-attempt id stays (InState started) (InState staging) staging_in_cr cancelled
          (λ r h e. unfold started in refl) (λ r h n. h))
        (unless_cancelled-Started files)

  check_and_stage-Started :
      (files : List File) → Triple Staging (check_and_stage backend id files) (λ _. Started) Escapes
  unfolding check_and_stage
  check_and_stage-Started files = Triple-bind (read-Staging (λ r. r.workflow_content)) λ content.
      Triple-bind (Triple-lift (is_workflow safe_load content) (λ valid w e h. h) (λ x w e h. h))
        (check_valid files)

  -- The inputs are there and the job is still staged in, or it has failed.
  abbrev Resolved : Option (List File) → World → Type 0
  Resolved (some files) = Staging
  Resolved none = Started

  resolve-Resolved : Triple Staging (resolve backend id) Resolved Escapes
  unfolding resolve
  resolve-Resolved =
      Triple-try
        (Triple-bind (info-Staging _) λ _.
          Triple-bind (Triple-quiet id staging-StableTest (quiet.resolve_input id))
            λ files. Triple-pure (some files) (λ w h. h))
        (λ e. Triple-bind (input_handler-Started e) (λ _. Triple-pure none (λ w h. h)))

  resolved_then-Started :
      (files : Option (List File))
      → Triple (Resolved files) (resolved_then backend id files) (λ _. Started) Escapes
  resolved_then-Started none = Triple-pure tt (λ w h. h)
  resolved_then-Started (some files) = check_and_stage-Started files

  -- Staging and starting a job that is in STAGING_IN or STAGING_IN_CR leaves it in WAITING,
  -- WAITING_CR, CANCELLED or PERMANENT_FAILURE, whatever the front end does between any two
  -- statements and whatever the outside replies; if an exception leaves the method, the job is still
  -- in STAGING_IN or STAGING_IN_CR. The parts are assumed to leave the state of jobs alone, and
  -- `uuid4` not to draw the job's id again.
  pub stage_and_start_job-Triple :
      Triple Staging (stage_and_start_job backend id) (λ _. Started) Escapes
  unfolding stage_and_start_job
  stage_and_start_job-Triple = Triple-bind resolve-Resolved resolved_then-Started
