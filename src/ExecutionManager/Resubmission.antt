-- ===== src/ExecutionManager/Resubmission.antt =====
-- A job that has gone beyond staging in stays beyond it, through recovery and through its round of
-- `_process_jobs`, on every path of the body and of the handlers.
use simple_cwl_xenon_service.Prelude.{ℕ, ◌≡◌, refl, subst, arith, inl, inr, Bool, true, some}
use simple_cwl_xenon_service.Exception.{Exn, Outcome, ok, raised}
use simple_cwl_xenon_service.JobState.{JobState, staging_in, state_eq}
use simple_cwl_xenon_service.JobState.Laws.{state_eq_iff}
use simple_cwl_xenon_service.World.{World, M, read, ◌>>=◌, ◌>>◌}
use simple_cwl_xenon_service.World.At.{InState, InState-Stable, Stable, At}
use simple_cwl_xenon_service.World.Gone.{Gone}
use simple_cwl_xenon_service.World.Keeps.{Keeps, staged_in}
use simple_cwl_xenon_service.World.Triple.{
  Triple, Post, same-Post, Triple-if, Triple-pure, Triple-weaken, Triple-forget, Triple-raises,
  Triple-fact, Triple-bind, Triple-try, Triple-find_job, Triple-read, At-map,
}
use simple_cwl_xenon_service.World.Frame.{Framed-remove}
use simple_cwl_xenon_service.ExecutionManager.Interface.{Backend, AreQuiet}
use simple_cwl_xenon_service.ExecutionManager.Bystander.{Steps-Gone, Rewinds-Gone}
use simple_cwl_xenon_service.ExecutionManager.Onward.{
  staged_in-StableTest, system_error-staged_in, Staged, Ongoing, framed, remove-Staged,
  Steps-Ongoing, Steps-Staged,
}
use simple_cwl_xenon_service.ExecutionManager.Failures.{try_again_later-Triple}
use simple_cwl_xenon_service.ExecutionManager.Handling.{
  rest-Keeps, delete_if_asked-Keeps, mark_system_error-Keeps, stop_on_failure-Keeps,
  try_again_later-Keeps, recover_rest-Keeps,
}
use simple_cwl_xenon_service.ExecutionManager.Process.{
  set_job, set_previous, is_system_exception, is_io_failure, follow_remote, destage_if_finished,
  stage_if_submitted, cancel_if_asked, delete_if_asked, process_job, process_handler, process_one,
  try_again_later, recover_job,
}
use simple_cwl_xenon_service.ExecutionManager.Loops.{Handling}
use simple_cwl_xenon_service.ExecutionManager.Safety.{
  of_round-Gone, recover_staging_in-InOrGone, Handling-InOrGone,
}

not_staging_in : (s : JobState) → staged_in s ≡ true → state_eq s staging_in ≡ true → ⊥
unfolding staged_in
not_staging_in s h e = ground arith

both-Post :
    {A : Type 0} (I : World → Type 0) (r : Outcome A × World) → I r.1 → Post (λ _. I) (λ _. I) r
both-Post I (ok a, w) h = h
both-Post I (raised e, w) h = h

Keeps-Triple :
    {A : Type 0} {I : World → Type 0} {m : M A} → Keeps I m → Triple I m (λ _. I) (λ _. I)
Keeps-Triple {I = I} {m = m} k = record { run = λ w h. both-Post I (m w) (k.at w h) }

module _ (id : ℕ) (backend : Backend) (quiet : AreQuiet backend.services) where
  stable : Stable (InState staged_in)
  stable = InState-Stable staged_in staged_in-StableTest

  -- What is known when an exception leaves the body.
  abbrev Thrown : Exn → World → Type 0
  Thrown e w = (previous : JobState) × (staged_in previous ≡ true) × Ongoing id previous w

  rest-Ongoing :
      (check_remote : Bool) (previous : JobState)
      → Keeps (Ongoing id previous) (
          read (λ r. r.state) id
          >> (follow_remote backend check_remote id
              >> (destage_if_finished backend id
                  >> (stage_if_submitted backend id
                      >> (cancel_if_asked backend id
                          >> (read (λ r. r.state) id >> delete_if_asked backend id))))))
  rest-Ongoing check_remote previous =
      let steps = Steps-Ongoing id previous in
      rest-Keeps (Ongoing id previous) id backend quiet steps check_remote (
        delete_if_asked-Keeps (Ongoing id previous) id backend quiet steps
          (framed id previous (remove-Staged id) (Framed-remove id)))

  set_job-At :
      {E : Exn → World → Type 0}
      → Triple (At id (InState staged_in)) (set_job id) (λ _. At id (InState staged_in)) E
  set_job-At = record { run = λ w a. record { row = a.row; apart = a.apart } }

  begin-Ongoing :
      {E : Exn → World → Type 0} (previous : JobState)
      → Triple
          (At id (λ r. InState staged_in r × (r.state ≡ previous)))
          (set_previous previous)
          (λ _. Ongoing id previous)
          E
  begin-Ongoing previous = record {
    run = λ w a. (inl (record { row = (a.row.0, a.row.1, a.row.2.0); apart = a.apart }), refl);
  }

  body-Staged :
      (check_remote : Bool)
      → Triple
          (At id (InState staged_in))
          (set_job id
            >> (read (λ r. r.state) id >>= λ previous.
                set_previous previous
                >> (read (λ r. r.state) id
                    >> (follow_remote backend check_remote id
                        >> (destage_if_finished backend id
                            >> (stage_if_submitted backend id
                                >> (cancel_if_asked backend id
                                    >> (read (λ r. r.state) id >> delete_if_asked backend id))))))))
          (λ _. Staged id)
          Thrown
  body-Staged check_remote = Triple-bind set_job-At λ _.
      Triple-bind (Triple-read id stable (λ r. r.state)) λ previous.
        Triple-fact {X = staged_in previous ≡ true}
          (λ w a. subst (λ s. staged_in s ≡ true) a.row.2.1 a.row.2.0)
          λ known. Triple-bind (begin-Ongoing previous) (λ _.
            Triple-raises (λ e w h. (previous, known, h))
              (Triple-forget (λ v w h. h.0) (Keeps-Triple (rest-Ongoing check_remote previous))))

  process_job-Staged :
      (check_remote : Bool)
      → Triple
          (At id (InState staged_in))
          (process_job backend check_remote id)
          (λ _. Staged id)
          Thrown
  unfolding process_job
  process_job-Staged check_remote = Triple-bind (Triple-find_job id stable) λ j.
      Triple-fact {X = j ≡ id} (λ w h. h.0)
        λ same.
          Triple-weaken {P' = At id (InState staged_in)} (λ w h. h.1)
            (rw same (body-Staged check_remote))

  exactly-staged_in :
      (previous s : JobState)
      → staged_in previous ≡ true
      → state_eq s previous ≡ true
      → staged_in s ≡ true
  exactly-staged_in previous s h e = rw ((state_eq_iff s previous).0 e) h

  -- The job is put back into the state in which the round began, which is beyond staging in as well.
  again-Staged :
      (e : Exn) → Triple (Thrown e) (try_again_later backend id e) (λ _. Staged id) (λ _. Staged id)
  again-Staged e = record { run = λ w h. by_row h.0 h.1 w h.2.0 h.2.1 }
    where
      by_row :
          (previous : JobState) (known : staged_in previous ≡ true) (w : World)
          → Staged id w
          → w.previous_state ≡ some previous
          → Post (λ _. Staged id) (λ _. Staged id) (try_again_later backend id e w)
      by_row previous known w (inl a) p =
          (Triple-raises (λ x v h. inl h.1.0)
              (Triple-forget
                (λ b v h. inl (At-map (λ r q. exactly-staged_in previous r.state known q) h.1))
                (try_again_later-Triple id backend previous staged_in staged_in-StableTest e))).run
            w (a, p)
      by_row previous known w (inr g) p = both-Post (Staged id) _ (
          inr (
            (try_again_later-Keeps (Gone id) id backend quiet (Steps-Gone id id)
                (Rewinds-Gone id id) e).at
              w g))

  process_handler-Staged :
      (e : Exn) → Triple (Thrown e) (process_handler backend id e) (λ _. Staged id) (λ _. Staged id)
  unfolding process_handler
  process_handler-Staged e =
      Triple-if (is_system_exception e)
        (λ _.
          Triple-if (is_io_failure e)
            (λ _.
              Triple-weaken (λ w h. h.2.0)
                (Keeps-Triple
                  (stop_on_failure-Keeps (Staged id) id backend quiet (Steps-Staged id) e)))
            (λ _. again-Staged e))
        (λ _.
          Triple-weaken (λ w h. h.2.0)
            (Triple-bind
              (Keeps-Triple
                (mark_system_error-Keeps (Staged id) id backend quiet (Steps-Staged id)))
              (λ _. Triple-pure true (λ w h. h))))

  process_one-Triple :
      (check_remote : Bool)
      → Triple
          (At id (InState staged_in))
          (process_one backend check_remote id)
          (λ _. Staged id)
          (λ _. Staged id)
  unfolding process_one
  process_one-Triple check_remote =
      Triple-try (Triple-bind (process_job-Staged check_remote) (λ _. Triple-pure true (λ w h. h)))
        process_handler-Staged

  process_one-Staged :
      (check_remote : Bool) → Keeps (Staged id) (process_one backend check_remote id)
  process_one-Staged check_remote = record { at = at }
    where
      at : (w : World) → Staged id w → Staged id (process_one backend check_remote id w).1
      at w (inl a) = same-Post (Staged id) _ ((process_one-Triple check_remote).run w a)
      at w (inr g) = inr ((of_round-Gone id backend quiet check_remote id).at w g)

  recover_job-Staged : Keeps (Staged id) (recover_job backend id)
  recover_job-Staged = recover_rest-Keeps (Staged id) id backend quiet (Steps-Staged id) (
      recover_staging_in-InOrGone id staged_in staged_in-StableTest system_error-staged_in backend
        quiet not_staging_in)

  pub Handling-Staged : Handling (Staged id) backend
  Handling-Staged =
      Handling-InOrGone id staged_in staged_in-StableTest system_error-staged_in backend quiet
        recover_job-Staged process_one-Staged
