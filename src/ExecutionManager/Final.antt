-- ===== src/ExecutionManager/Final.antt =====
-- The steps of a round of `_process_jobs` on a job in a final state. Only a deletion does anything.
use simple_cwl_xenon_service.Prelude.{
  ℕ, ◌≡◌, refl, ◌⊎◌, inl, inr, Bool, true, false, Bool-cases, some, arith,
}
use simple_cwl_xenon_service.Exception.{Exn}
use simple_cwl_xenon_service.JobState.{
  JobState, submitted, staging_in, finished, system_error, state_eq, is_final, cancellation_active,
  is_remote,
}
use simple_cwl_xenon_service.JobStore.Table.{Row}
use simple_cwl_xenon_service.World.{World, M, read, attempt, unless, ◌>>=◌}
use simple_cwl_xenon_service.World.At.{Stable, InState, StableTest, InState-Stable, At}
use simple_cwl_xenon_service.World.Gone.{Gone}
use simple_cwl_xenon_service.World.Triple.{
  Triple, Post, Never, Attempted, Triple-pure, Triple-weaken, Triple-forget, Triple-raises,
  Triple-fact, Triple-bind, Triple-read, Triple-attempt, Triple-remove, Triple-quiet, At-map,
}
use simple_cwl_xenon_service.World.Frame.{Framed, Triple-frame, Framed-read, Framed-attempt}
use simple_cwl_xenon_service.ExecutionManager.Interface.{Backend, AreQuiet, AreFramed}
use simple_cwl_xenon_service.ExecutionManager.{delete, stage_and_start_job}
use simple_cwl_xenon_service.ExecutionManager.Process.{
  when, follow_remote, destage_if_finished, stage_if_submitted, cancel_if_asked, delete_if_final,
  delete_if_asked,
}

pub is_final-StableTest : StableTest is_final
unfolding is_final
is_final-StableTest s h = ground arith

pub system_error-is_final : is_final system_error ≡ true
unfolding is_final
system_error-is_final = refl

not_remote : (s : JobState) → is_final s ≡ true → is_remote s ≡ true → ⊥
unfolding is_final is_remote
not_remote s h e = ground arith

not_finished : (s : JobState) → is_final s ≡ true → state_eq s finished ≡ true → ⊥
unfolding is_final
not_finished s h e = ground arith

not_submitted : (s : JobState) → is_final s ≡ true → state_eq s submitted ≡ true → ⊥
unfolding is_final
not_submitted s h e = ground arith

not_cancelling : (s : JobState) → is_final s ≡ true → cancellation_active s ≡ true → ⊥
unfolding is_final cancellation_active
not_cancelling s h e = ground arith

-- The job is deleted, or in a final state.
abbrev pub Kept : ℕ → World → Type 0
Kept id w = At id (InState is_final) w ⊎ Gone id w

-- The job is in a final state, as it was when its round began.
abbrev pub Round : ℕ → JobState → World → Type 0
Round id previous w = At id (InState is_final) w × (w.previous_state ≡ some previous)

module _ (id : ℕ) (backend : Backend) (quiet : AreQuiet backend.services)
    (framed : AreFramed backend.services) (previous : JobState) where
  open backend use {site}

  final : Stable (InState is_final)
  final = InState-Stable is_final is_final-StableTest

  abbrev Thrown : Exn → World → Type 0
  Thrown e = Round id previous

  -- Reading a column leaves the job where it is.
  read-Round :
      {A : Type 0} (column : Row → A)
      → Triple
          (Round id previous)
          (read column id)
          (λ v w.
            At id (λ r. InState is_final r × (column r ≡ v)) w × (w.previous_state ≡ some previous))
          Thrown
  read-Round column =
      Triple-raises (λ e w h. absurd h.0)
        (Triple-frame (some previous) _ _ Never (Framed-read column id)
          (Triple-read id final column))

  pub drop-Round :
      {A : Type 0} (column : Row → A)
      → Triple (Round id previous) (read column id) (λ v. Round id previous) Thrown
  drop-Round column = Triple-forget (λ v w h. (At-map (λ r q. q.0) h.0, h.1)) (read-Round column)

  -- `if test(job.state): m`, where no final state passes the test.
  when-never :
      (test : JobState → Bool) (m : M Unit)
      → ((s : JobState) → is_final s ≡ true → test s ≡ true → ⊥)
      → Triple
          (Round id previous)
          (read (λ r. r.state) id >>= λ state. when (test state) m)
          (λ _. Round id previous)
          Thrown
  when-never test m never = Triple-bind (read-Round (λ r. r.state)) λ state.
      elim (Bool-cases (test state)) [
        | inl e ↦
            Triple-fact {X = ⊥} (λ w h. never h.0.row.0.state h.0.row.2.0 (rw h.0.row.2.1 e))
              (λ x. absurd x)
        | inr n ↦ rw n (Triple-pure tt (λ w h. (At-map (λ r q. q.0) h.0, h.1)))
      ]

  pub follow_remote-Round :
      (check_remote : Bool)
      → Triple
          (Round id previous)
          (follow_remote backend check_remote id)
          (λ _. Round id previous)
          Thrown
  unfolding follow_remote
  follow_remote-Round false = Triple-pure tt (λ w h. h)
  follow_remote-Round true = when-never is_remote _ not_remote

  pub destage_if_finished-Round :
      Triple (Round id previous) (destage_if_finished backend id) (λ _. Round id previous) Thrown
  unfolding destage_if_finished
  destage_if_finished-Round = when-never (λ s. state_eq s finished) _ not_finished

  pub cancel_if_asked-Round :
      Triple (Round id previous) (cancel_if_asked backend id) (λ _. Round id previous) Thrown
  unfolding cancel_if_asked
  cancel_if_asked-Round = when-never cancellation_active _ not_cancelling

  abbrev nowhere : JobState → Bool
  nowhere s = false

  no_row : {X : Type 0} (w : World) → At id (InState nowhere) w → X
  no_row w a = cc (a.row.2)

  attempt-Round :
      Triple
        (Round id previous)
        (attempt submitted staging_in id >>= λ taken. when taken (stage_and_start_job backend id))
        (λ _. Round id previous)
        Thrown
  attempt-Round =
      Triple-bind
        (Triple-raises (λ e w h. absurd h.0)
          (Triple-frame (some previous) _ _ Never (Framed-attempt submitted staging_in id) (
            Triple-attempt id final (InState nowhere) (InState is_final) submitted staging_in
              (λ r h e. absurd (not_submitted r.state h e)) (λ r h n. h))))
        by_result
    where
      by_result :
          (taken : Bool)
          → Triple
              (λ w.
                Attempted id (InState nowhere) (InState is_final) taken w
                × (w.previous_state ≡ some previous))
              (when taken (stage_and_start_job backend id))
              (λ _. Round id previous)
              Thrown
      by_result true = Triple-fact {X = ⊥} (λ w h. no_row w h.0) (λ x. absurd x)
      by_result false = Triple-pure tt (λ w h. h)

  pub stage_if_submitted-Round :
      Triple (Round id previous) (stage_if_submitted backend id) (λ _. Round id previous) Thrown
  unfolding stage_if_submitted
  stage_if_submitted-Round = record { run = λ w h. by_update w.update_available w h }
    where
      by_update :
          (b : Bool) (w : World)
          → Round id previous w
          → Post
              (λ _. Round id previous)
              Thrown
              (unless b
                (attempt submitted staging_in id >>= λ taken.
                  when taken (stage_and_start_job backend id))
                w)
      by_update true w h = h
      by_update false w h = attempt-Round.run w h

  -- A part that deletes files.
  part-Round :
      {m : M Unit}
      → Triple
          (At id (InState is_final))
          m
          (λ _. At id (InState is_final))
          (λ _. At id (InState is_final))
      → Framed m
      → Triple (Round id previous) m (λ _. Round id previous) Thrown
  part-Round t k = Triple-frame (some previous) _ _ _ k t

  delete-Kept : Triple (Round id previous) (delete backend id) (λ _. Kept id) Thrown
  unfolding delete
  delete-Kept =
      Triple-bind
        (part-Round (Triple-quiet id is_final-StableTest (quiet.delete_remote_dir id))
          (framed.delete_remote_dir id))
        λ _.
          Triple-bind
            (part-Round (Triple-quiet id is_final-StableTest (quiet.delete_output_dir id))
              (framed.delete_output_dir id))
            λ _.
              Triple-weaken (λ w h. h.0) (Triple-forget (λ v w g. inr g) (Triple-remove id final))

  when-Kept :
      (b : Bool) {m : M Unit}
      → Triple (Round id previous) m (λ _. Kept id) Thrown
      → Triple (Round id previous) (when b m) (λ _. Kept id) Thrown
  when-Kept true t = t
  when-Kept false t = Triple-pure tt (λ w h. inl h.0)

  pub delete_if_asked-Kept :
      Triple (Round id previous) (delete_if_asked backend id) (λ _. Kept id) Thrown
  unfolding delete_if_asked delete_if_final
  delete_if_asked-Kept = Triple-bind (drop-Round (λ r. r.please_delete)) λ please_delete.
      when-Kept please_delete
        (Triple-bind (drop-Round (λ r. r.state)) (λ state. when-Kept (is_final state) delete-Kept))
