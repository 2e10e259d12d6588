-- ===== src/JobRunner/Follow.antt =====
-- JobRunner.update_job: where a job is after the scheduler told its status.
use simple_cwl_xenon_service.Prelude.{
  ℕ, ◌≡◌, refl, Bool, true, false, Option, String, List, [], ◌∷◌, arith,
}
use simple_cwl_xenon_service.Exception.{Exn, ok}
use simple_cwl_xenon_service.JobState.{
  JobState, waiting, running, finished, waiting_cr, running_cr, cancelled, state_eq, state_in,
  is_remote,
}
use simple_cwl_xenon_service.World.{World, Site, Call, JobStatus, attempt, sched_get_status}
use simple_cwl_xenon_service.World.At.{Stable, InState, InState-Stable, StableTest, At}
use simple_cwl_xenon_service.World.Triple.{
  Triple, Post, Never, Attempted, Triple-attempt, Triple-bind, Triple-forget, Triple-pure,
  Triple-weaken, Triple-find_job, Triple-read, Triple-fact, At-map,
}
use simple_cwl_xenon_service.JobRunner.{follow_running, follow_done, follow, update_job}

-- Where a remote job may be once the scheduler said that it has a status.
unfoldable pub after : JobStatus → JobState → Bool
unfolding state_in is_remote
after JobStatus.running s = state_in s (running ∷ running_cr ∷ [])
after JobStatus.done s = state_in s (finished ∷ cancelled ∷ [])
after JobStatus.other s = is_remote s

-- The states that `follow_running` and `follow_done` pass through.
not_waiting : JobState → Bool
unfolding state_in
not_waiting s = state_in s (running ∷ waiting_cr ∷ running_cr ∷ [])

first_done : JobState → Bool
unfolding state_in
first_done s = state_in s (running ∷ waiting_cr ∷ running_cr ∷ finished ∷ cancelled ∷ [])

second_done : JobState → Bool
unfolding state_in
second_done s = state_in s (waiting_cr ∷ running_cr ∷ finished ∷ cancelled ∷ [])

third_done : JobState → Bool
unfolding state_in
third_done s = state_in s (running_cr ∷ finished ∷ cancelled ∷ [])

is_remote-StableTest : StableTest is_remote
unfolding is_remote
is_remote-StableTest s h = ground arith

not_waiting-StableTest : StableTest not_waiting
unfolding not_waiting
not_waiting-StableTest s h = ground arith

first_done-StableTest : StableTest first_done
unfolding first_done
first_done-StableTest s h = ground arith

second_done-StableTest : StableTest second_done
unfolding second_done
second_done-StableTest s h = ground arith

third_done-StableTest : StableTest third_done
unfolding third_done
third_done-StableTest s h = ground arith

from_remote :
    (s : JobState) → is_remote s ≡ true → state_eq s waiting ≡ false → not_waiting s ≡ true
unfolding not_waiting is_remote
from_remote s h n = ground arith

to_running :
    (s : JobState)
    → not_waiting s ≡ true
    → state_eq s waiting_cr ≡ false
    → after JobStatus.running s ≡ true
unfolding not_waiting after
to_running s h n = ground arith

first_step : (s : JobState) → is_remote s ≡ true → state_eq s waiting ≡ false → first_done s ≡ true
unfolding first_done is_remote
first_step s h n = ground arith

second_step :
    (s : JobState) → first_done s ≡ true → state_eq s running ≡ false → second_done s ≡ true
unfolding first_done second_done
second_step s h n = ground arith

third_step :
    (s : JobState) → second_done s ≡ true → state_eq s waiting_cr ≡ false → third_done s ≡ true
unfolding second_done third_done
third_step s h n = ground arith

fourth_step :
    (s : JobState)
    → third_done s ≡ true
    → state_eq s running_cr ≡ false
    → after JobStatus.done s ≡ true
unfolding third_done after
fourth_step s h n = ground arith

module _ (id : ℕ) {E : Exn → World → Type 0} where
  -- A transition that leads from `S` to `T` whether it takes place or not.
  attempt-Step :
      (S T : JobState → Bool)
      → StableTest S
      → (from to : JobState) → T to ≡ true
      → ((s : JobState) → S s ≡ true → state_eq s from ≡ false → T s ≡ true)
      → Triple (At id (InState S)) (attempt from to id) (λ _. At id (InState T)) E
  attempt-Step S T stable from to arrived stayed = Triple-forget same (
      Triple-attempt id (InState-Stable S stable) (InState T) (InState T) from to (λ r h e. arrived)
        (λ r h n. stayed r.state h n))
    where
      same : (b : Bool) (w : World) → Attempted id (InState T) (InState T) b w → At id (InState T) w
      same true w a = a
      same false w a = a

  follow_running-After :
      Triple
        (At id (InState is_remote))
        (follow_running id)
        (λ _. At id (InState (after JobStatus.running)))
        E
  unfolding follow_running
  follow_running-After =
      Triple-bind
        (attempt-Step is_remote not_waiting is_remote-StableTest waiting running
          (unfold not_waiting in refl) (λ s h n. from_remote s h n))
        λ _.
          Triple-bind
            (attempt-Step not_waiting (after JobStatus.running) not_waiting-StableTest waiting_cr
              running_cr (unfold after in refl) (λ s h n. to_running s h n))
            (λ _. Triple-pure tt (λ w a. a))

  follow_done-After :
      Triple
        (At id (InState is_remote))
        (follow_done id)
        (λ _. At id (InState (after JobStatus.done)))
        E
  unfolding follow_done
  follow_done-After =
      Triple-bind
        (attempt-Step is_remote first_done is_remote-StableTest waiting finished
          (unfold first_done in refl) first_step)
        λ _.
          Triple-bind
            (attempt-Step first_done second_done first_done-StableTest running finished
              (unfold second_done in refl) second_step)
            λ _.
              Triple-bind
                (attempt-Step second_done third_done second_done-StableTest waiting_cr cancelled
                  (unfold third_done in refl) third_step)
                λ _.
                  Triple-bind
                    (attempt-Step third_done (after JobStatus.done) third_done-StableTest running_cr
                      cancelled (unfold after in refl) fourth_step)
                    (λ _. Triple-pure tt (λ w a. a))

  follow-After :
      (status : JobStatus)
      → Triple
          (At id (InState is_remote))
          (follow status id)
          (λ _. At id (InState (after status)))
          E
  unfolding follow
  follow-After JobStatus.running = follow_running-After
  follow-After JobStatus.done = follow_done-After
  follow-After JobStatus.other = Triple-pure tt (λ w a. unfold after in a)

module _ (id : ℕ) (site : Site) (status : JobStatus)
    (replies : (calls : List Call) (remote_id : Option String)
      → site.status_reply calls remote_id ≡ ok status) where
  ask-Status :
      (remote_id : Option String)
      → Triple
          (At id (InState is_remote))
          (sched_get_status site remote_id)
          (λ v w. (v ≡ status) × At id (InState is_remote) w)
          Never
  unfolding sched_get_status
  ask-Status remote_id = record {
    run = λ w a. rw (replies w.calls remote_id) (refl, record { row = a.row; apart = a.apart });
  }

  pub update_job-Triple :
      Triple
        (At id (InState is_remote))
        (update_job site id)
        (λ _. At id (InState (after status)))
        Never
  unfolding update_job
  update_job-Triple = Triple-bind (Triple-find_job id remote) λ j.
      Triple-fact {X = j ≡ id} (λ w h. h.0)
        λ same.
          Triple-weaken {P' = At id (InState is_remote)} (λ w h. h.1)
            (rw same (
              Triple-bind
                (Triple-forget (λ v w a. At-map (λ r h. h.0) a)
                  (Triple-read id remote (λ r. r.remote_job_id)))
                λ remote_id. Triple-bind (ask-Status remote_id) λ v.
                  Triple-fact {X = v ≡ status} (λ w h. h.0)
                    λ known.
                      Triple-weaken {P' = At id (InState is_remote)} (λ w h. h.1)
                        (rw known (follow-After id status))))
    where
      remote : Stable (InState is_remote)
      remote = InState-Stable is_remote is_remote-StableTest

-- A remote job (WAITING, RUNNING, WAITING_CR or RUNNING_CR) for which the scheduler answers that it
-- runs is afterwards in RUNNING or RUNNING_CR; if the scheduler answers that it is done, in FINISHED or
-- CANCELLED; otherwise it is still remote. This holds whatever cancel requests arrive between the
-- statements of `update_job`, which then raises nothing. `uuid4` is assumed not to draw the id again.
pub update_job-After :
    (id : ℕ) (site : Site) (status : JobStatus)
    → ((calls : List Call) (remote_id : Option String)
        → site.status_reply calls remote_id ≡ ok status)
    → (w : World) → At id (InState is_remote) w
    → Post (λ _. At id (InState (after status))) Never (update_job site id w)
update_job-After id site status replies w a = (update_job-Triple id site status replies).run w a
