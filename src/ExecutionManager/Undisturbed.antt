-- ===== src/ExecutionManager/Undisturbed.antt =====
-- A round of `_process_jobs` on a job that has ended on the compute resource, when nothing goes wrong
-- outside: scheduler and parts answer.
use simple_cwl_xenon_service.ExecutionManager.Calm.{
  Calm, Triple-meet, IsFinal, to_here, when-never, drop,
}
use simple_cwl_xenon_service.ExecutionManager.Destages.{
  AreCalm, finishing-StableTest, destage_if_finished-IsFinal,
}
use simple_cwl_xenon_service.JobRunner.Follow.{after, update_job-Triple}
use simple_cwl_xenon_service.Prelude.{
  ℕ, ◌≡◌, refl, arith, String, Bool, true, false, ◌||◌, Option, List, inl, inr, Bool-cases,
}
use simple_cwl_xenon_service.Exception.{Exn, ok}
use simple_cwl_xenon_service.JobState.{
  JobState, submitted, staging_in, state_eq, is_final, is_remote, cancellation_active,
}
use simple_cwl_xenon_service.JobStore.Table.{Row}
use simple_cwl_xenon_service.Cwl.Files.{File}
use simple_cwl_xenon_service.World.{World, JobStatus, Call, M, read, attempt, unless, ◌>>=◌, ◌>>◌}
use simple_cwl_xenon_service.World.At.{InState, InState-Stable, StableTest, At}
use simple_cwl_xenon_service.World.Triple.{
  Triple, Post, Never, Attempted, Triple-pure, Triple-weaken, Triple-forget, Triple-fact,
  Triple-bind, Triple-try, Triple-find_job, Triple-read, Triple-attempt, Triple-quiet,
  Triple-remove, At-map,
}
use simple_cwl_xenon_service.ExecutionManager.Interface.{Backend, AreQuiet}
use simple_cwl_xenon_service.ExecutionManager.{delete, stage_and_start_job}
use simple_cwl_xenon_service.ExecutionManager.Concluding.{finishing}
use simple_cwl_xenon_service.ExecutionManager.Final.{is_final-StableTest, Kept}
use simple_cwl_xenon_service.ExecutionManager.Process.{
  when, set_job, set_previous, set_have, note_running, check_remote_state, follow_remote,
  destage_if_finished, stage_if_submitted, cancel_if_asked, delete_if_final, delete_if_asked,
  process_job, process_one,
}

-- The states of a job that was started and is not destaged, or was cancelled.
unfoldable pub executing : JobState → Bool
unfolding is_remote finishing
executing s = is_remote s || finishing s

executing-StableTest : StableTest executing
unfolding executing
executing-StableTest s h = ground arith

finishing_if_not_remote :
    (s : JobState) → executing s ≡ true → is_remote s ≡ false → finishing s ≡ true
unfolding executing
finishing_if_not_remote s h n = ground (arith, rw n at h)

done-finishing : (s : JobState) → after JobStatus.done s ≡ true → finishing s ≡ true
unfolding after finishing
done-finishing s h = ground arith

not_cancelling : (s : JobState) → is_final s ≡ true → cancellation_active s ≡ true → ⊥
unfolding is_final cancellation_active
not_cancelling s h e = ground arith

not_submitted : (s : JobState) → is_final s ≡ true → state_eq s submitted ≡ true → ⊥
unfolding is_final
not_submitted s h e = ground arith

module _ (id : ℕ) (backend : Backend) (quiet : AreQuiet backend.services)
    {Ready : List File → Type 0} (calm : AreCalm backend.services id Ready) where
  open backend use {site, services}

  abbrev nowhere : JobState → Bool
  nowhere s = false

  attempt-IsFinal :
      Triple
        (IsFinal id)
        (attempt submitted staging_in id >>= λ taken. when taken (stage_and_start_job backend id))
        (λ _. IsFinal id)
        Never
  attempt-IsFinal =
      Triple-bind
        (Triple-attempt id (InState-Stable is_final is_final-StableTest) (InState nowhere)
          (InState is_final) submitted staging_in (λ r h e. absurd (not_submitted r.state h e))
          (λ r h n. h))
        by_result
    where
      by_result :
          (taken : Bool)
          → Triple
              (Attempted id (InState nowhere) (InState is_final) taken)
              (when taken (stage_and_start_job backend id))
              (λ _. IsFinal id)
              Never
      by_result true = record { run = λ w a. cc (a.row.2) }
      by_result false = Triple-pure tt (λ w h. h)

  stage_if_submitted-IsFinal :
      Triple (IsFinal id) (stage_if_submitted backend id) (λ _. IsFinal id) Never
  unfolding stage_if_submitted
  stage_if_submitted-IsFinal = record { run = λ w h. by_update w.update_available w h }
    where
      by_update :
          (b : Bool) (w : World)
          → IsFinal id w
          → Post
              (λ _. IsFinal id)
              Never
              (unless b
                (attempt submitted staging_in id >>= λ taken.
                  when taken (stage_and_start_job backend id))
                w)
      by_update true w h = h
      by_update false w h = attempt-IsFinal.run w h

  cancel_if_asked-IsFinal : Triple (IsFinal id) (cancel_if_asked backend id) (λ _. IsFinal id) Never
  unfolding cancel_if_asked
  cancel_if_asked-IsFinal = when-never id is_final-StableTest cancellation_active _ not_cancelling

  kept :
      {m : M Unit}
      → Triple (IsFinal id) m (λ _. IsFinal id) (λ _. IsFinal id)
      → Calm id m
      → Triple (IsFinal id) m (λ _. IsFinal id) Never
  kept t k = Triple-meet (to_here id) t k

  delete-Gone : Triple (IsFinal id) (delete backend id) (λ _. Kept id) Never
  unfolding delete
  delete-Gone =
      Triple-bind
        (kept (Triple-quiet id is_final-StableTest (quiet.delete_remote_dir id))
          calm.delete_remote_dir)
        λ _.
          Triple-bind
            (kept (Triple-quiet id is_final-StableTest (quiet.delete_output_dir id))
              calm.delete_output_dir)
            λ _.
              Triple-forget (λ v w g. inr g)
                (Triple-remove id (InState-Stable is_final is_final-StableTest))

  when-Kept :
      (b : Bool) {m : M Unit}
      → Triple (IsFinal id) m (λ _. Kept id) Never
      → Triple (IsFinal id) (when b m) (λ _. Kept id) Never
  when-Kept true t = t
  when-Kept false t = Triple-pure tt (λ w h. inl h)

  delete_if_asked-Kept : Triple (IsFinal id) (delete_if_asked backend id) (λ _. Kept id) Never
  unfolding delete_if_asked delete_if_final
  delete_if_asked-Kept =
      Triple-bind (drop id is_final-StableTest (λ r. r.please_delete)) λ please_delete.
        when-Kept please_delete (
          Triple-bind (drop id is_final-StableTest (λ r. r.state))
            (λ state. when-Kept (is_final state) delete-Gone))

  note_running-finishing :
      Triple
        (At id (InState finishing))
        (note_running backend id)
        (λ _. At id (InState finishing))
        Never
  unfolding note_running
  note_running-finishing = record { run = λ w a. by_have w.have_running_jobs w a }
    where
      noted :
          Triple
            (At id (InState finishing))
            (read (λ r. r.state) id >>= λ state. set_have (is_remote state))
            (λ _. At id (InState finishing))
            Never
      noted =
          Triple-bind (drop id finishing-StableTest (λ r. r.state))
            λ state. record { run = λ w a. record { row = a.row; apart = a.apart } }

      by_have :
          (have : Bool) (w : World)
          → At id (InState finishing) w
          → Post
              (λ _. At id (InState finishing))
              Never
              (unless have (read (λ r. r.state) id >>= λ state. set_have (is_remote state)) w)
      by_have true w a = a
      by_have false w a = noted.run w a

  set_job-At :
      {P : Row → Type 0} {E : Exn → World → Type 0} (j : ℕ)
      → Triple (At id P) (set_job j) (λ _. At id P) E
  set_job-At j = record { run = λ w a. record { row = a.row; apart = a.apart } }

  set_previous-At :
      {P : Row → Type 0} {E : Exn → World → Type 0} (state : JobState)
      → Triple (At id P) (set_previous state) (λ _. At id P) E
  set_previous-At state = record { run = λ w a. record { row = a.row; apart = a.apart } }

  module _
      (done : (calls : List Call) (remote_id : Option String)
        → site.status_reply calls remote_id ≡ ok JobStatus.done) where
    check_remote_state-finishing :
        Triple
          (At id (InState is_remote))
          (check_remote_state backend id)
          (λ _. At id (InState finishing))
          Never
    unfolding check_remote_state
    check_remote_state-finishing =
        Triple-bind
          (Triple-forget (λ v w a. At-map (λ r h. done-finishing r.state h) a)
            (update_job-Triple id site JobStatus.done done))
          λ _.
            Triple-bind
              (Triple-meet (to_here id)
                (Triple-quiet id finishing-StableTest (quiet.update_files id)) calm.update_files)
              λ _.
                Triple-bind (Triple-find_job id (InState-Stable finishing finishing-StableTest))
                  λ j.
                    Triple-fact {X = j ≡ id} (λ w h. h.0)
                      λ same.
                        Triple-weaken {P' = At id (InState finishing)} (λ w h. h.1)
                          (rw same (Triple-bind (set_job-At id) (λ _. note_running-finishing)))

    follow_remote-finishing :
        Triple
          (At id (InState executing))
          (follow_remote backend true id)
          (λ _. At id (InState finishing))
          Never
    unfolding follow_remote
    follow_remote-finishing =
        Triple-bind (Triple-read id (InState-Stable executing executing-StableTest) (λ r. r.state))
          λ state. elim (Bool-cases (is_remote state)) [
            | inl e ↦
                rw e
                  (Triple-weaken (λ w a. At-map (λ r h. rw h.1 e) a) check_remote_state-finishing)
            | inr n ↦ rw n (
                Triple-pure tt
                  (λ w a. At-map (λ r h. finishing_if_not_remote r.state h.0 (rw h.1 n)) a))
          ]

    body-Kept :
        Triple
          (At id (InState executing))
          (set_job id
            >> (read (λ r. r.state) id >>= λ previous.
                set_previous previous
                >> (read (λ r. r.state) id
                    >> (follow_remote backend true id
                        >> (destage_if_finished backend id
                            >> (stage_if_submitted backend id
                                >> (cancel_if_asked backend id
                                    >> (read (λ r. r.state) id >> delete_if_asked backend id))))))))
          (λ _. Kept id)
          Never
    body-Kept = Triple-bind (set_job-At id) λ _.
        Triple-bind (drop id executing-StableTest (λ r. r.state)) λ previous.
          Triple-bind (set_previous-At previous) λ _.
            Triple-bind (drop id executing-StableTest (λ r. r.state)) λ _.
              Triple-bind follow_remote-finishing λ _.
                Triple-bind (destage_if_finished-IsFinal id backend quiet calm) λ _.
                  Triple-bind stage_if_submitted-IsFinal λ _.
                    Triple-bind cancel_if_asked-IsFinal λ _.
                      Triple-bind (drop id is_final-StableTest (λ r. r.state))
                        (λ _. delete_if_asked-Kept)

    process_job-Kept :
        Triple (At id (InState executing)) (process_job backend true id) (λ _. Kept id) Never
    unfolding process_job
    process_job-Kept =
        Triple-bind (Triple-find_job id (InState-Stable executing executing-StableTest)) λ j.
          Triple-fact {X = j ≡ id} (λ w h. h.0)
            λ same. Triple-weaken {P' = At id (InState executing)} (λ w h. h.1) (rw same body-Kept)

    process_one-Triple :
        Triple
          (At id (InState executing))
          (process_one backend true id)
          (λ go_on w. (go_on ≡ true) × Kept id w)
          Never
    unfolding process_one
    process_one-Triple =
        Triple-try {D = Never}
          (Triple-bind process_job-Kept (λ _. Triple-pure true (λ w h. (refl, h))))
          (λ e. record { run = λ w h. absurd h })

-- One round of `_process_jobs` is enough for a job that has ended on the compute resource: if the round
-- looks at the scheduler, which answers that jobs are done, if it begins in WAITING, RUNNING, WAITING_CR,
-- RUNNING_CR or FINISHED (or in CANCELLED, where a request was faster), and if the parts that update the
-- job's files, fetch its output and delete its files return, and publishing returns on such files as were
-- fetched (`Ready`), then the round ends without an exception, the loop goes on, and the job is in a
-- final state or deleted, whatever the front end does meanwhile. The parts are assumed to leave the
-- state of jobs alone, and `uuid4` not to draw the id again.
pub process_one-Concludes :
    (id : ℕ) (backend : Backend) (Ready : List File → Type 0)
    → AreQuiet backend.services
    → AreCalm backend.services id Ready
    → ((calls : List Call) (remote_id : Option String)
        → backend.site.status_reply calls remote_id ≡ ok JobStatus.done)
    → (w : World) → At id (InState executing) w
    → Post (λ go_on w'. (go_on ≡ true) × Kept id w') Never (process_one backend true id w)
process_one-Concludes id backend Ready quiet calm done w a =
    (process_one-Triple id backend quiet calm done).run w a
