-- ===== src/World/Quiet.antt =====
-- Actions that move no job and create none: whatever stable test the state of a job satisfies before,
-- it satisfies it after, a job that has no row before has none after, and what the front end wrote of a
-- job stays as it is, however the action ends. Only the front end may have moved the job meanwhile. The variable
-- `previous_state` of `_process_jobs` stays as it is.
use simple_cwl_xenon_service.Prelude.{
  ℕ, ◌≡◌, refl, ◌∙◌, inl, inr, Bool, true, false, Option, String, List, [], ◌∷◌, if◌then◌else◌,
}
use simple_cwl_xenon_service.Exception.{Exn, Outcome, ok, raised}
use simple_cwl_xenon_service.FileSystem.{FileCall}
use simple_cwl_xenon_service.JobState.{JobState}
use simple_cwl_xenon_service.JobStore.{Store, add_log, set_var}
use simple_cwl_xenon_service.JobStore.Table.{Row}
use simple_cwl_xenon_service.JobStore.Select.{KeepsId, rows-add_log}
use simple_cwl_xenon_service.JobStore.Single.{Single-set_var, Single-set_var_ne}
use simple_cwl_xenon_service.Front.Steps.{FrontStep}
use simple_cwl_xenon_service.World.{
  World, Site, Call, JobDescription, Command, M, ask, unless, handle, try_except, pure, raise, lift,
  continue, ◌>>=◌, statement, take_batch, interfere, find_job, find_jobs, read, write, log,
  sched_get_status, sched_cancel, sched_submit, sched_submit_command, sched_wait, writing,
}
use simple_cwl_xenon_service.World.At.{
  InState, InState-Stable, StableTest, Holds, At, interfere-At, same_or_ne,
}
use simple_cwl_xenon_service.World.Gone.{NoRow, Gone, NoRow-set_var, interfere-Gone}
use simple_cwl_xenon_service.World.Retained.{
  Submission, request, NotAsked, Retained, set_var-NotAsked, interfere-Retained,
}

pub record Quiet {A : Type 0} (m : M A) : Type 0 where
  pub at :
      (id : ℕ) (S : JobState → Bool)
      → StableTest S
      → (w : World) → At id (InState S) w
      → At id (InState S) (m w).1
  pub gone : (id : ℕ) (w : World) → Gone id w → Gone id (m w).1
  pub retains :
      (id : ℕ) (sent : Submission) (w : World) → Retained id sent w → Retained id sent (m w).1
  pub frames : (w : World) → (m w).1.previous_state ≡ w.previous_state

pub take_batch-previous :
    (env : List (List FrontStep)) (w : World) → (take_batch env w).previous_state ≡ w.previous_state
take_batch-previous [] w = refl
take_batch-previous (batch ∷ rest) w = refl

module _ {A : Type 0} where
  pub Quiet-pure : (a : A) → Quiet (pure a)
  Quiet-pure a = record {
    at = λ id S stable w h. h;
    gone = λ id w g. g;
    retains = λ id sent w k. k;
    frames = λ w. refl;
  }

  pub Quiet-raise : (e : Exn) → Quiet (raise {A = A} e)
  Quiet-raise e = record {
    at = λ id S stable w h. h;
    gone = λ id w g. g;
    retains = λ id sent w k. k;
    frames = λ w. refl;
  }

  pub Quiet-lift : (r : Outcome A) → Quiet (lift r)
  Quiet-lift r = record {
    at = λ id S stable w h. h;
    gone = λ id w g. g;
    retains = λ id sent w k. k;
    frames = λ w. refl;
  }

  pub Quiet-if : (b : Bool) (m n : M A) → Quiet m → Quiet n → Quiet (if b then m else n)
  Quiet-if true m n km kn = km
  Quiet-if false m n km kn = kn

  -- A statement that keeps every test on every job.
  pub Quiet-statement :
      (f : Store → Outcome A × Store)
      → ((id : ℕ) (S : JobState → Bool) (s : Store)
          → Holds id (InState S) s
          → Holds id (InState S) (f s).1)
      → ((id : ℕ) (s : Store) → NoRow id s → NoRow id (f s).1)
      → ((id : ℕ) (sent : Submission) (s : Store)
          → Holds id (NotAsked sent) s
          → Holds id (NotAsked sent) (f s).1)
      → Quiet (statement f)
  unfolding statement interfere
  Quiet-statement f keeps none unasked = record {
    at = λ id S stable w h.
        let h' = interfere-At id (InState S) (InState-Stable S stable) w h in
        record { row = keeps id S (interfere w).store h'.row; apart = h'.apart };
    gone = λ id w g.
        let g' = interfere-Gone id w g in
        record { no_row = none id (interfere w).store g'.no_row; apart = g'.apart };
    retains = λ id sent w k.
        let k' = interfere-Retained id sent w k in
        record { row = unasked id sent (interfere w).store k'.row; unasked = k'.unasked };
    frames = λ w. take_batch-previous w.env w;
  }

module _ {A B : Type 0} where
  Quiet-continue :
      (f : A → M B)
      → ((a : A) → Quiet (f a))
      → (id : ℕ) (S : JobState → Bool) → StableTest S
      → (r : Outcome A × World) → At id (InState S) r.1
      → At id (InState S) (continue f r).1
  Quiet-continue f kf id S stable (ok a, w) h = (kf a).at id S stable w h
  Quiet-continue f kf id S stable (raised e, w) h = h

  Gone-continue :
      (f : A → M B)
      → ((a : A) → Quiet (f a))
      → (id : ℕ) (r : Outcome A × World) → Gone id r.1
      → Gone id (continue f r).1
  Gone-continue f kf id (ok a, w) g = (kf a).gone id w g
  Gone-continue f kf id (raised e, w) g = g

  Retained-continue :
      (f : A → M B)
      → ((a : A) → Quiet (f a))
      → (id : ℕ) (sent : Submission) (r : Outcome A × World) → Retained id sent r.1
      → Retained id sent (continue f r).1
  Retained-continue f kf id sent (ok a, w) k = (kf a).retains id sent w k
  Retained-continue f kf id sent (raised e, w) k = k

  frames-continue :
      (f : A → M B)
      → ((a : A) → Quiet (f a))
      → (r : Outcome A × World) → (continue f r).1.previous_state ≡ r.1.previous_state
  frames-continue f kf (ok a, w) = (kf a).frames w
  frames-continue f kf (raised e, w) = refl

  pub Quiet-bind : (m : M A) (f : A → M B) → Quiet m → ((a : A) → Quiet (f a)) → Quiet (m >>= f)
  Quiet-bind m f km kf = record {
    at = λ id S stable w h. Quiet-continue f kf id S stable (m w) (km.at id S stable w h);
    gone = λ id w g. Gone-continue f kf id (m w) (km.gone id w g);
    retains = λ id sent w k. Retained-continue f kf id sent (m w) (km.retains id sent w k);
    frames = λ w. frames-continue f kf (m w) ∙ km.frames w;
  }

pub Quiet-find_job : (id : ℕ) → Quiet (find_job id)
unfolding find_job
Quiet-find_job id = Quiet-statement _ (λ j S s h. h) (λ j s n. n) (λ j sent s k. k)

pub Quiet-find_jobs : Quiet find_jobs
unfolding find_jobs
Quiet-find_jobs = Quiet-statement _ (λ j S s h. h) (λ j s n. n) (λ j sent s k. k)

pub Quiet-read : {A : Type 0} (column : Row → A) (id : ℕ) → Quiet (read column id)
unfolding read
Quiet-read column id = Quiet-statement _ (λ j S s h. h) (λ j s n. n) (λ j sent s k. k)

-- An assignment to a column that the front end does not write.
pub record Ordinary (f : Row → Row) : Type 0 where
  pub keeps_id : KeepsId f
  pub keeps_request : (r : Row) → request (f r) ≡ request r
  pub keeps_state : (r : Row) → (f r).state ≡ r.state

write-Holds :
    (f : Row → Row)
    → Ordinary f
    → (j id : ℕ) (S : JobState → Bool) (s : Store) → Holds id (InState S) s
    → Holds id (InState S) (set_var f j s)
write-Holds f o j id S s (r, one, h) = elim (same_or_ne j id) [
  | inl e ↦ rw e (f r, Single-set_var id r s one f o.keeps_id, rw (o.keeps_state r) h)
  | inr ne ↦ (r, Single-set_var_ne id r s one f o.keeps_id j ne, h)
]

pub Quiet-write : (f : Row → Row) (id : ℕ) → Ordinary f → Quiet (write f id)
unfolding write
Quiet-write f j o =
    Quiet-statement _ (λ id S s h. write-Holds f o j id S s h)
      (λ id s n. NoRow-set_var id s n f o.keeps_id j)
      (λ id sent s k.
        set_var-NotAsked id sent s k f
          (record { keeps_id = o.keeps_id; keeps_request = o.keeps_request }) j)

log-Holds :
    (j level n : ℕ) (clock : ℕ → ℕ) (message : List String) (id : ℕ) (S : JobState → Bool)
    (s : Store)
    → Holds id (InState S) s
    → Holds id (InState S) (add_log j level clock n message s)
log-Holds j level n clock message id S s (r, one, h) =
    (r, rw (rows-add_log j level clock n id message s) one, h)

-- An action that only keeps a record of a call.
Quiet-called :
    {A : Type 0} (reply : List Call → Outcome A) (call : Call)
    → Quiet (λ w. (reply w.calls, record w { calls = call ∷ w.calls }))
Quiet-called reply call = record {
  at = λ id S stable w h. record { row = h.row; apart = h.apart };
  gone = λ id w g. record { no_row = g.no_row; apart = g.apart };
  retains = λ id sent w k. record { row = k.row; unasked = k.unasked };
  frames = λ w. refl;
}

module _ (site : Site) where
  pub Quiet-log : (j level : ℕ) (message : List String) → Quiet (log site j level message)
  unfolding log
  Quiet-log j level message = record {
    at = λ id S stable w h.
        let h' = (logging w.ticks).at id S stable w h in record { row = h'.row; apart = h'.apart };
    gone = λ id w g.
        let g' = (logging w.ticks).gone id w g in record { no_row = g'.no_row; apart = g'.apart };
    retains = λ id sent w k.
        let k' = (logging w.ticks).retains id sent w k in
        record { row = k'.row; unasked = k'.unasked };
    frames = λ w. (logging w.ticks).frames w;
  }
    where
      logging : (n : ℕ) → Quiet (statement (writing (add_log j level site.time n message)))
      logging n =
          Quiet-statement _ (λ id S s. log-Holds j level n site.time message id S s)
            (λ id s h. rw (rows-add_log j level site.time n id message s) h)
            λ id sent s (r, one, h). (r, rw (rows-add_log j level site.time n id message s) one, h)

  pub Quiet-sched_get_status : (id : Option String) → Quiet (sched_get_status site id)
  unfolding sched_get_status
  Quiet-sched_get_status id = Quiet-called _ _

  pub Quiet-sched_cancel : (id : Option String) → Quiet (sched_cancel site id)
  unfolding sched_cancel
  Quiet-sched_cancel id = Quiet-called _ _

  pub Quiet-sched_submit : (desc : JobDescription) → Quiet (sched_submit site desc)
  unfolding sched_submit
  Quiet-sched_submit desc = Quiet-called _ _

  pub Quiet-sched_submit_command : (job : Command) → Quiet (sched_submit_command site job)
  unfolding sched_submit_command
  Quiet-sched_submit_command job = Quiet-called _ _

  pub Quiet-sched_wait : (id : String) → Quiet (sched_wait site id)
  unfolding sched_wait
  Quiet-sched_wait id = Quiet-called _ _

pub Quiet-ask :
    {A : Type 0} (reply : List Call → FileCall → Outcome A) (call : FileCall)
    → Quiet (ask reply call)
unfolding ask
Quiet-ask reply call = Quiet-called _ _

pub Quiet-unless : (b : Bool) (m : M Unit) → Quiet m → Quiet (unless b m)
Quiet-unless true m k = Quiet-pure tt
Quiet-unless false m k = k

module _ {A : Type 0} where
  Quiet-handle :
      (f : Exn → M A)
      → ((e : Exn) → Quiet (f e))
      → (id : ℕ) (S : JobState → Bool) → StableTest S
      → (r : Outcome A × World) → At id (InState S) r.1
      → At id (InState S) (handle f r).1
  Quiet-handle f kf id S stable (ok a, w) h = h
  Quiet-handle f kf id S stable (raised e, w) h = (kf e).at id S stable w h

  Gone-handle :
      (f : Exn → M A)
      → ((e : Exn) → Quiet (f e))
      → (id : ℕ) (r : Outcome A × World) → Gone id r.1
      → Gone id (handle f r).1
  Gone-handle f kf id (ok a, w) g = g
  Gone-handle f kf id (raised e, w) g = (kf e).gone id w g

  Retained-handle :
      (f : Exn → M A)
      → ((e : Exn) → Quiet (f e))
      → (id : ℕ) (sent : Submission) (r : Outcome A × World) → Retained id sent r.1
      → Retained id sent (handle f r).1
  Retained-handle f kf id sent (ok a, w) k = k
  Retained-handle f kf id sent (raised e, w) k = (kf e).retains id sent w k

  frames-handle :
      (f : Exn → M A)
      → ((e : Exn) → Quiet (f e))
      → (r : Outcome A × World) → (handle f r).1.previous_state ≡ r.1.previous_state
  frames-handle f kf (ok a, w) = refl
  frames-handle f kf (raised e, w) = (kf e).frames w

  pub Quiet-try :
      (m : M A) (f : Exn → M A) → Quiet m → ((e : Exn) → Quiet (f e)) → Quiet (try_except m f)
  Quiet-try m f km kf = record {
    at = λ id S stable w h. Quiet-handle f kf id S stable (m w) (km.at id S stable w h);
    gone = λ id w g. Gone-handle f kf id (m w) (km.gone id w g);
    retains = λ id sent w k. Retained-handle f kf id sent (m w) (km.retains id sent w k);
    frames = λ w. frames-handle f kf (m w) ∙ km.frames w;
  }

pub ruleset quiet_rules = (
  Quiet-pure, Quiet-raise, Quiet-lift, Quiet-if, Quiet-bind, Quiet-find_job, Quiet-read,
  Quiet-write, Quiet-log, Quiet-sched_get_status, Quiet-sched_cancel, Quiet-sched_submit,
  Quiet-sched_submit_command, Quiet-sched_wait, Quiet-ask, Quiet-unless, Quiet-try,
)
