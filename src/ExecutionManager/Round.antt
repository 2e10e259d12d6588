-- ===== src/ExecutionManager/Round.antt =====
-- A job in a final state stays in a final state, or is deleted, through its round of `_process_jobs`,
-- on every path of its body and of its handlers.
use simple_cwl_xenon_service.Prelude.{
  ℕ, ◌≡◌, refl, subst, inl, Bool, true, false, Option, none, some, [], ◌∷◌,
}
use simple_cwl_xenon_service.Exception.{Exn, or_raise, key_error}
use simple_cwl_xenon_service.JobState.{JobState, system_error, state_eq, is_final}
use simple_cwl_xenon_service.JobState.Laws.{state_eq_iff}
use simple_cwl_xenon_service.JobStore.{level_error}
use simple_cwl_xenon_service.World.{World, pure, read, write_state, ◌>>=◌, ◌>>◌}
use simple_cwl_xenon_service.World.At.{Stable, InState, InState-Stable, At}
use simple_cwl_xenon_service.World.Quiet.{Quiet-log}
use simple_cwl_xenon_service.World.Triple.{
  Triple, Post, Triple-if, Triple-pure, Triple-weaken, Triple-forget, Triple-raises, Triple-fact,
  Triple-bind, Triple-try, Triple-find_job, Triple-read, Triple-statement, Triple-quiet, At-map,
}
use simple_cwl_xenon_service.ExecutionManager.Interface.{Backend, AreQuiet, AreFramed}
use simple_cwl_xenon_service.ExecutionManager.Failures.{try_again_later-Triple}
use simple_cwl_xenon_service.ExecutionManager.Final.{
  is_final-StableTest, Kept, Round, drop-Round, follow_remote-Round, destage_if_finished-Round,
  cancel_if_asked-Round, stage_if_submitted-Round, delete_if_asked-Kept,
}
use simple_cwl_xenon_service.ExecutionManager.Bystander.{mark-Holds}
use simple_cwl_xenon_service.ExecutionManager.Final.{system_error-is_final}
use simple_cwl_xenon_service.ExecutionManager.Process.{
  set_job, set_previous, get_job_variable, is_system_exception, is_io_failure, follow_remote,
  destage_if_finished, stage_if_submitted, cancel_if_asked, delete_if_asked, process_job,
  process_handler, process_one, stop_on_failure, mark_system_error, try_again_later,
  io_failure_message,
}

-- What is known when an exception leaves the body: the round began in a final state.
abbrev pub Thrown : ℕ → Exn → World → Type 0
Thrown id e w = (previous : JobState) × (is_final previous ≡ true) × Round id previous w

module _ (id : ℕ) (backend : Backend) (quiet : AreQuiet backend.services)
    (framed : AreFramed backend.services) where
  open backend use {site}

  final : Stable (InState is_final)
  final = InState-Stable is_final is_final-StableTest

  abbrev IsFinal : World → Type 0
  IsFinal = At id (InState is_final)

  -- The body of the round after the state was read.
  rest-Kept :
      (check_remote : Bool) (previous : JobState)
      → Triple
          (Round id previous)
          (read (λ r. r.state) id
            >> (follow_remote backend check_remote id
                >> (destage_if_finished backend id
                    >> (stage_if_submitted backend id
                        >> (cancel_if_asked backend id
                            >> (read (λ r. r.state) id >> delete_if_asked backend id))))))
          (λ _. Kept id)
          (λ e. Round id previous)
  rest-Kept check_remote previous =
      Triple-bind (drop-Round id backend quiet framed previous (λ r. r.state)) λ _.
        Triple-bind (follow_remote-Round id backend quiet framed previous check_remote) λ _.
          Triple-bind (destage_if_finished-Round id backend quiet framed previous) λ _.
            Triple-bind (stage_if_submitted-Round id backend quiet framed previous) λ _.
              Triple-bind (cancel_if_asked-Round id backend quiet framed previous) λ _.
                Triple-bind (drop-Round id backend quiet framed previous (λ r. r.state))
                  (λ _. delete_if_asked-Kept id backend quiet framed previous)

  set_job-IsFinal : {E : Exn → World → Type 0} → Triple IsFinal (set_job id) (λ _. IsFinal) E
  set_job-IsFinal = record { run = λ w a. record { row = a.row; apart = a.apart } }

  -- The state that was read is kept in `previous_state`.
  begin-Round :
      {E : Exn → World → Type 0} (previous : JobState)
      → Triple
          (At id (λ r. InState is_final r × (r.state ≡ previous)))
          (set_previous previous)
          (λ _. Round id previous)
          E
  begin-Round previous = record {
    run = λ w a. (record { row = (a.row.0, a.row.1, a.row.2.0); apart = a.apart }, refl);
  }

  body-Kept :
      (check_remote : Bool)
      → Triple IsFinal
          (set_job id
            >> (read (λ r. r.state) id >>= λ previous.
                set_previous previous
                >> (read (λ r. r.state) id
                    >> (follow_remote backend check_remote id
                        >> (destage_if_finished backend id
                            >> (stage_if_submitted backend id
                                >> (cancel_if_asked backend id
                                    >> (read (λ r. r.state) id >> delete_if_asked backend id))))))))
          (λ _. Kept id)
          (Thrown id)
  body-Kept check_remote = Triple-bind set_job-IsFinal λ _.
      Triple-bind (Triple-read id final (λ r. r.state)) λ previous.
        Triple-fact {X = is_final previous ≡ true}
          (λ w a. subst (λ s. is_final s ≡ true) a.row.2.1 a.row.2.0)
          λ known.
            Triple-bind (begin-Round previous)
              (λ _. Triple-raises (λ e w h. (previous, known, h)) (rest-Kept check_remote previous))

  process_job-Kept :
      (check_remote : Bool)
      → Triple IsFinal (process_job backend check_remote id) (λ _. Kept id) (Thrown id)
  unfolding process_job
  process_job-Kept check_remote = Triple-bind (Triple-find_job id final) λ j.
      Triple-fact {X = j ≡ id} (λ w h. h.0)
        λ same. Triple-weaken {P' = IsFinal} (λ w h. h.1) (rw same (body-Kept check_remote))

  mark-IsFinal :
      {E : Exn → World → Type 0} (j : ℕ)
      → Triple IsFinal (write_state system_error j) (λ _. IsFinal) E
  unfolding write_state
  mark-IsFinal j = Triple-statement id final _ λ r w p one a. record {
    row = mark-Holds id is_final system_error-is_final j w.store a.row;
    apart = a.apart;
  }

  abbrev Ended : Exn → World → Type 0
  Ended e = Kept id

  get_job_variable-IsFinal : Triple IsFinal get_job_variable (λ _. IsFinal) Ended
  get_job_variable-IsFinal = record { run = λ w a. by_variable w.job w a }
    where
      by_variable :
          (o : Option ℕ) (w : World)
          → IsFinal w
          → Post (λ _. IsFinal) Ended (or_raise o key_error, w)
      by_variable none w a = inl a
      by_variable (some j) w a = a

  mark_system_error-Kept :
      Triple IsFinal (mark_system_error backend >> pure true) (λ _. Kept id) Ended
  unfolding mark_system_error
  mark_system_error-Kept =
      Triple-bind (Triple-bind get_job_variable-IsFinal mark-IsFinal)
        (λ _. Triple-pure true (λ w a. inl a))

  stop_on_failure-Kept : (e : Exn) → Triple IsFinal (stop_on_failure backend e) (λ _. Kept id) Ended
  unfolding stop_on_failure
  stop_on_failure-Kept e = Triple-bind get_job_variable-IsFinal λ j.
      Triple-bind
        (Triple-raises (λ x w a. inl a)
          (Triple-quiet id is_final-StableTest
            (Quiet-log site j level_error (io_failure_message backend e ∷ []))))
        λ _. Triple-bind (mark-IsFinal j) (λ _. Triple-pure false (λ w a. inl a))

  exactly-final :
      (previous s : JobState)
      → is_final previous ≡ true
      → state_eq s previous ≡ true
      → is_final s ≡ true
  exactly-final previous s h e = rw ((state_eq_iff s previous).0 e) h

  try_again_later-Kept :
      (e : Exn) (previous : JobState)
      → is_final previous ≡ true
      → Triple (Round id previous) (try_again_later backend id e) (λ _. Kept id) Ended
  try_again_later-Kept e previous known =
      Triple-raises (λ x w h. inl h.1.0)
        (Triple-forget (λ v w h. inl (At-map (λ r q. exactly-final previous r.state known q) h.1))
          (try_again_later-Triple id backend previous is_final is_final-StableTest e))

  process_handler-Kept :
      (e : Exn) → Triple (Thrown id e) (process_handler backend id e) (λ _. Kept id) Ended
  unfolding process_handler
  process_handler-Kept e =
      Triple-if (is_system_exception e)
        (λ _.
          Triple-if (is_io_failure e) (λ _. Triple-weaken (λ w h. h.2.0) (stop_on_failure-Kept e))
            (λ _. again))
        (λ _. Triple-weaken (λ w h. h.2.0) mark_system_error-Kept)
    where
      again : Triple (Thrown id e) (try_again_later backend id e) (λ _. Kept id) Ended
      again = record { run = λ w h. (try_again_later-Kept e h.0 h.1).run w h.2 }

  -- A job that is in a final state when its round of `_process_jobs` begins is deleted or in a final
  -- state when the round ends, whatever the front end does meanwhile, whatever the outside replies,
  -- and also where an exception leaves the round's handlers. The parts are assumed to leave the state
  -- of jobs alone, and `uuid4` not to draw the id again.
  pub process_one-Triple :
      (check_remote : Bool)
      → Triple IsFinal (process_one backend check_remote id) (λ _. Kept id) (λ e. Kept id)
  unfolding process_one
  process_one-Triple check_remote =
      Triple-try (Triple-bind (process_job-Kept check_remote) (λ _. Triple-pure true (λ w h. h)))
        process_handler-Kept
