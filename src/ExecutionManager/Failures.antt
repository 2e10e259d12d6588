-- ===== src/ExecutionManager/Failures.antt =====
-- The exception handlers of `_process_jobs`.
use simple_cwl_xenon_service.Prelude.{
  ℕ, ◌≡◌, refl, Bool, true, false, Option, none, some, String, List, [], ◌∷◌,
}
use simple_cwl_xenon_service.Exception.{Exn, raised, key_error, or_raise, first_arg}
use simple_cwl_xenon_service.JobState.{JobState, state_eq}
use simple_cwl_xenon_service.JobState.Laws.{state_eq_refl}
use simple_cwl_xenon_service.JobStore.{level_debug}
use simple_cwl_xenon_service.World.{World, pure, lift, ◌>>=◌, ◌>>◌, write_state, log}
use simple_cwl_xenon_service.World.At.{Stable, InState, InState-Stable, StableTest, At}
use simple_cwl_xenon_service.World.Triple.{
  Triple, Post, Triple-lift, Triple-weaken, Triple-bind, Triple-find_job, Triple-write_state,
  Triple-log, Triple-fact, Triple-raises, Never,
}
use simple_cwl_xenon_service.World.Frame.{Triple-frame, Framed-find_job, Framed-log}
use simple_cwl_xenon_service.ExecutionManager.Interface.{Backend}
use simple_cwl_xenon_service.ExecutionManager.Process.{
  is_system_exception, is_io_failure, set_job, set_have, get_previous, connection_message,
  try_again_later, process_handler,
}

abbrev exactly : JobState → JobState → Bool
exactly state s = state_eq s state

module _ (id : ℕ) (backend : Backend) (previous : JobState) (S : JobState → Bool)
    (stable : StableTest S) where
  open backend use {site}

  -- The job is there, in a state that passes a test which cancel requests keep, and its round began
  -- in the state `previous`.
  abbrev pub Begun : World → Type 0
  Begun w = At id (InState S) w × (w.previous_state ≡ some previous)

  somewhere : Stable (InState S)
  somewhere = InState-Stable S stable

  -- The exception `e` has no argument, and reading `e.args[0]` raised `x`.
  abbrev pub NoArgument : Exn → Exn → World → Type 0
  NoArgument e x w = (first_arg e ≡ raised x) × Begun w

  -- The job is back in the state in which its round began, and jobs count as running.
  abbrev pub Reset : Bool → World → Type 0
  Reset go_on w =
      (go_on ≡ true) × At id (InState (exactly previous)) w × (w.have_running_jobs ≡ true)

  set_job-Begun : {E : Exn → World → Type 0} → Triple Begun (set_job id) (λ _. Begun) E
  set_job-Begun = record { run = λ w h. (record { row = h.0.row; apart = h.0.apart }, h.1) }

  get_previous-Begun :
      {E : Exn → World → Type 0}
      → Triple Begun get_previous (λ state w. (state ≡ previous) × Begun w) E
  get_previous-Begun {E} = record { run = λ w h. bound w.previous_state w h.1 h }
    where
      bound :
          (o : Option JobState) (w : World)
          → o ≡ some previous
          → Begun w
          → Post (λ state w. (state ≡ previous) × Begun w) E (or_raise o key_error, w)
      bound none w e h = cc e
      bound (some state) w e h = (cc e, h)

  finish-Reset :
      {E : Exn → World → Type 0}
      → Triple (At id (InState (exactly previous))) (set_have true >> pure true) Reset E
  finish-Reset = record { run = λ w a. (refl, record { row = a.row; apart = a.apart }, refl) }

  restore-Reset :
      {E : Exn → World → Type 0}
      → Triple Begun
          (get_previous >>= λ state. write_state state id >> (set_have true >> pure true))
          Reset
          E
  restore-Reset = Triple-bind get_previous-Begun λ state.
      Triple-fact {X = state ≡ previous} (λ w h. h.0)
        λ e.
          Triple-weaken (λ w h. h.1.0)
            (rw e (
              Triple-bind
                (Triple-write_state id somewhere {P' = InState (exactly previous)} previous
                  (λ r h. state_eq_refl previous))
                (λ _. finish-Reset)))

  log-Begun :
      {E : Exn → World → Type 0} (level : ℕ) (message : List String)
      → Triple Begun (log site id level message) (λ _. Begun) E
  log-Begun level message =
      Triple-raises (λ e w h. absurd h.0)
        (Triple-frame (some previous) _ _ Never (Framed-log site id level message)
          (Triple-log id somewhere site level message))

  explain-Reset :
      (e : Exn)
      → Triple Begun
          (set_job id
            >> (lift (first_arg e) >>= λ reason.
                log site id level_debug (connection_message backend reason ∷ [])
                >> (get_previous >>= λ state.
                    write_state state id >> (set_have true >> pure true))))
          Reset
          (NoArgument e)
  explain-Reset e = Triple-bind set_job-Begun λ _.
      Triple-bind (Triple-lift (first_arg e) (λ reason w q h. h) (λ x w q h. (q, h))) λ reason.
        Triple-bind (log-Begun level_debug (connection_message backend reason ∷ []))
          (λ _. restore-Reset)

  -- A connection problem puts the job back in the state in which its round began, whatever happened to
  -- it since, and counts jobs as running; an exception that has no argument makes the handler itself
  -- raise IndexError. It is assumed that the job is there, that its round has read its state, and
  -- that `uuid4` does not draw its id again.
  pub try_again_later-Triple :
      (e : Exn) → Triple Begun (try_again_later backend id e) Reset (NoArgument e)
  unfolding try_again_later
  try_again_later-Triple e =
      Triple-bind
        (Triple-raises (λ x w h. absurd h.0)
          (Triple-frame (some previous) _ _ Never (Framed-find_job id)
            (Triple-find_job id somewhere)))
        λ j.
          Triple-fact {X = j ≡ id} (λ w h. h.0.0)
            λ same. Triple-weaken {P' = Begun} (λ w h. (h.0.1, h.1)) (rw same (explain-Reset e))

  -- The first handler of `_process_jobs`, for an exception that is no failure of the disk or the
  -- quota.
  pub process_handler-Triple :
      (e : Exn)
      → is_system_exception e ≡ true
      → is_io_failure e ≡ false
      → Triple Begun (process_handler backend id e) Reset (NoArgument e)
  unfolding process_handler
  process_handler-Triple e system network = rw (system, network) (try_again_later-Triple e)
