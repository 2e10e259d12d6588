-- ===== src/ExecutionManager/Cancelling.antt =====
-- `_cancel_job`, where the scheduler answers: how its answers decide.
use simple_cwl_xenon_service.Prelude.{
  ℕ, ◌≡◌, refl, Bool, true, false, ◌&&◌, Option, String, List, [], ◌∷◌, arith, inl, inr, Bool-cases,
  if◌then◌else◌, ◌∙◌, ap,
}
use simple_cwl_xenon_service.Exception.{ok}
use simple_cwl_xenon_service.JobStore.{level_info}
use simple_cwl_xenon_service.Front.Cancel.{cancel_target}
use simple_cwl_xenon_service.JobState.{
  JobState, running_cr, cancelled, is_remote, cancellation_active,
}
use simple_cwl_xenon_service.JobRunner.{is_running, cancel_running, cancel_remote, cancel_job}
use simple_cwl_xenon_service.JobStore.Table.{Row}
use simple_cwl_xenon_service.World.{
  World, JobStatus, Call, M, log, read, write_state, ◌>>=◌, ◌>>◌, sched_get_status, sched_cancel,
}
use simple_cwl_xenon_service.World.At.{Stable, At}
use simple_cwl_xenon_service.World.Triple.{
  Triple, Post, Never, Triple-pure, Triple-bind, Triple-read, Triple-forget, Triple-write_state,
  Triple-log, At-map,
}
use simple_cwl_xenon_service.World.Known.{Triple-result, Triple-find_known, Triple-read_known}
use simple_cwl_xenon_service.ExecutionManager.Interface.{Backend}
use simple_cwl_xenon_service.ExecutionManager.{cancel}

abbrev pub HasState : JobState → Row → Type 0
HasState state r = r.state ≡ state

-- A cancel request leaves a job that is pending cancellation where it is.
cancel_target-active : (s : JobState) → cancellation_active s ≡ true → cancel_target s ≡ s
unfolding cancellation_active
cancel_target-active s h = ground arith

active-Stable : (s : JobState) → cancellation_active s ≡ true → Stable (HasState s)
active-Stable s h = record {
  of_cancel = λ r e. ap cancel_target e ∙ cancel_target-active s h;
  of_delete = λ r e. e;
}

cancelled-Stable : Stable (HasState cancelled)
cancelled-Stable = record { of_cancel = λ r e. ap cancel_target e; of_delete = λ r e. e }

-- The job still runs after the attempt to cancel it: it is remote, the scheduler reports it as running,
-- and reports it as running again in reply to the cancel call.
abbrev pub still_runs : JobState → JobStatus → JobStatus → Bool
still_runs state status reply = is_remote state && (is_running status && is_running reply)

abbrev pub cancelled_to : Bool → JobState
cancelled_to true = running_cr
cancelled_to false = cancelled

module _ (id : ℕ) (backend : Backend) (state : JobState) (active : cancellation_active state ≡ true)
    (status reply : JobStatus)
    (status_answers : (calls : List Call) (remote_id : Option String)
      → backend.site.status_reply calls remote_id ≡ ok status)
    (cancel_answers : (calls : List Call) (remote_id : Option String)
      → backend.site.cancel_reply calls remote_id ≡ ok reply) where
  open backend use {site}

  stays : Stable (HasState state)
  stays = active-Stable state active

  read_remote_id :
      {B : Type 0} {Q : B → World → Type 0} (f : Option String → M B)
      → ((remote_id : Option String) → Triple (At id (HasState state)) (f remote_id) Q Never)
      → Triple (At id (HasState state)) (read (λ r. r.remote_job_id) id >>= f) Q Never
  read_remote_id f t =
      Triple-bind
        (Triple-forget (λ v w a. At-map (λ r h. h.0) a)
          (Triple-read id stays (λ r. r.remote_job_id)))
        t

  sched_get_status-ok :
      (remote_id : Option String)
      → Triple
          (At id (HasState state))
          (sched_get_status site remote_id)
          (λ s w. (s ≡ status) × At id (HasState state) w)
          Never
  unfolding sched_get_status
  sched_get_status-ok remote_id = record {
    run = λ w a.
        rw (status_answers w.calls remote_id) (refl, record { row = a.row; apart = a.apart });
  }

  sched_cancel-ok :
      (remote_id : Option String)
      → Triple
          (At id (HasState state))
          (sched_cancel site remote_id)
          (λ s w. (s ≡ reply) × At id (HasState state) w)
          Never
  unfolding sched_cancel
  sched_cancel-ok remote_id = record {
    run = λ w a.
        rw (cancel_answers w.calls remote_id) (refl, record { row = a.row; apart = a.apart });
  }

  cancel_running-ok :
      (s : JobStatus)
      → Triple
          (At id (HasState state))
          (cancel_running site id s)
          (λ b w. (b ≡ (is_running s && is_running reply)) × At id (HasState state) w)
          Never
  unfolding cancel_running
  cancel_running-ok JobStatus.running = read_remote_id _ λ remote_id.
      Triple-result _ _ reply (sched_cancel-ok remote_id)
        (Triple-pure (is_running reply) λ w a. (refl, a))
  cancel_running-ok JobStatus.done = Triple-pure false λ w a. (refl, a)
  cancel_running-ok JobStatus.other = Triple-pure false λ w a. (refl, a)

  cancel_job-ok :
      Triple
        (At id (HasState state))
        (cancel_job site id)
        (λ b w. (b ≡ still_runs state status reply) × At id (HasState state) w)
        Never
  unfolding cancel_job cancel_remote
  cancel_job-ok = Triple-find_known id stays _ (
      Triple-read_known id stays _ (λ r. r.state) state (λ r h. h)
        (elim (Bool-cases (is_remote state)) [
          | inl e ↦ rw e (
              read_remote_id _ λ remote_id.
                Triple-result _ _ status (sched_get_status-ok remote_id) (cancel_running-ok status))
          | inr n ↦ rw n (Triple-pure false λ w a. (refl, a))
        ]))

  concluded :
      (b : Bool)
      → Triple
          (At id (HasState state))
          (if b
            then write_state running_cr id
            else (write_state cancelled id >> log site id level_info ("Job cancelled" ∷ [])))
          (λ _. At id (HasState (cancelled_to b)))
          Never
  concluded true = Triple-write_state id stays running_cr λ r h. refl
  concluded false =
      Triple-bind (Triple-write_state id stays {P' = HasState cancelled} cancelled λ r h. refl)
        λ _. Triple-log id cancelled-Stable site _ _

  -- Where the scheduler answers, `_cancel_job` raises nothing and takes a job that is pending
  -- cancellation to RUNNING_CR exactly if it is in WAITING_CR or RUNNING_CR, the scheduler says that it
  -- runs, and says so again when it is asked to cancel it; otherwise the job goes to CANCELLED.
  -- Meanwhile the front end does whatever it does; the job has one row, and its id is not drawn
  -- again.
  pub cancel-HasState :
      (w : World)
      → At id (HasState state) w
      → Post
          (λ _. At id (HasState (cancelled_to (still_runs state status reply))))
          Never
          (cancel backend id w)
  unfolding cancel
  cancel-HasState w a =
      (Triple-bind (Triple-log id stays site _ _) λ _.
          Triple-result _ _ (still_runs state status reply) cancel_job-ok
            (concluded (still_runs state status reply))).run
        w a
