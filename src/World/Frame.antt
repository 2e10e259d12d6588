-- ===== src/World/Frame.antt =====
-- Actions that leave the variable `previous_state` of `_process_jobs` alone, and how a triple is
-- framed by such a fact.
use simple_cwl_xenon_service.Prelude.{
  ℕ, ◌≡◌, refl, ◌∙◌, Bool, true, false, Option, String, List, if◌then◌else◌,
}
use simple_cwl_xenon_service.Exception.{Exn, Outcome, ok, raised}
use simple_cwl_xenon_service.FileSystem.{FileCall}
use simple_cwl_xenon_service.JobState.{JobState}
use simple_cwl_xenon_service.JobStore.{Store}
use simple_cwl_xenon_service.JobStore.Table.{Row}
use simple_cwl_xenon_service.World.{
  World, Site, Call, JobDescription, M, ask, pure, raise, lift, continue, ◌>>=◌, handle, try_except,
  statement, interfere, find_job, read, write, write_state, attempt, remove, log, sched_get_status,
  sched_cancel, sched_submit, unless,
}
use simple_cwl_xenon_service.World.Quiet.{take_batch-previous}
use simple_cwl_xenon_service.World.Triple.{Triple, Post}

pub record Framed {A : Type 0} (m : M A) : Type 0 where
  pub same : (w : World) → (m w).1.previous_state ≡ w.previous_state

module _ {A : Type 0} where
  pub Framed-pure : (a : A) → Framed (pure a)
  Framed-pure a = record { same = λ w. refl }

  pub Framed-raise : (e : Exn) → Framed (raise {A = A} e)
  Framed-raise e = record { same = λ w. refl }

  pub Framed-lift : (r : Outcome A) → Framed (lift r)
  Framed-lift r = record { same = λ w. refl }

  pub Framed-if : (b : Bool) (m n : M A) → Framed m → Framed n → Framed (if b then m else n)
  Framed-if true m n km kn = km
  Framed-if false m n km kn = kn

  pub Framed-statement : (f : Store → Outcome A × Store) → Framed (statement f)
  unfolding statement interfere
  Framed-statement f = record { same = λ w. take_batch-previous w.env w }

  handle-previous :
      (f : Exn → M A)
      → ((e : Exn) → Framed (f e))
      → (r : Outcome A × World) → (handle f r).1.previous_state ≡ r.1.previous_state
  handle-previous f kf (ok a, w) = refl
  handle-previous f kf (raised e, w) = (kf e).same w

  pub Framed-try :
      (m : M A) (f : Exn → M A) → Framed m → ((e : Exn) → Framed (f e)) → Framed (try_except m f)
  Framed-try m f km kf = record { same = λ w. handle-previous f kf (m w) ∙ km.same w }

module _ {A B : Type 0} where
  continue-previous :
      (f : A → M B)
      → ((a : A) → Framed (f a))
      → (r : Outcome A × World) → (continue f r).1.previous_state ≡ r.1.previous_state
  continue-previous f kf (ok a, w) = (kf a).same w
  continue-previous f kf (raised e, w) = refl

  pub Framed-bind : (m : M A) (f : A → M B) → Framed m → ((a : A) → Framed (f a)) → Framed (m >>= f)
  Framed-bind m f km kf = record { same = λ w. continue-previous f kf (m w) ∙ km.same w }

pub Framed-unless : (b : Bool) (m : M Unit) → Framed m → Framed (unless b m)
Framed-unless true m k = Framed-pure tt
Framed-unless false m k = k

pub Framed-find_job : (id : ℕ) → Framed (find_job id)
unfolding find_job
Framed-find_job id = Framed-statement _

pub Framed-read : {A : Type 0} (column : Row → A) (id : ℕ) → Framed (read column id)
unfolding read
Framed-read column id = Framed-statement _

pub Framed-write : (f : Row → Row) (id : ℕ) → Framed (write f id)
unfolding write
Framed-write f id = Framed-statement _

pub Framed-write_state : (state : JobState) (id : ℕ) → Framed (write_state state id)
unfolding write_state
Framed-write_state state id = Framed-statement _

pub Framed-attempt : (from to : JobState) (id : ℕ) → Framed (attempt from to id)
unfolding attempt
Framed-attempt from to id = Framed-statement _

pub Framed-remove : (id : ℕ) → Framed (remove id)
unfolding remove
Framed-remove id = Framed-statement _

module _ (site : Site) where
  pub Framed-log : (id level : ℕ) (message : List String) → Framed (log site id level message)
  unfolding log statement interfere
  Framed-log id level message = record { same = λ w. take_batch-previous w.env w }

  pub Framed-get_status : (id : Option String) → Framed (sched_get_status site id)
  unfolding sched_get_status
  Framed-get_status id = record { same = λ w. refl }

  pub Framed-cancel : (id : Option String) → Framed (sched_cancel site id)
  unfolding sched_cancel
  Framed-cancel id = record { same = λ w. refl }

  pub Framed-submit : (desc : JobDescription) → Framed (sched_submit site desc)
  unfolding sched_submit
  Framed-submit desc = record { same = λ w. refl }

pub Framed-ask :
    {A : Type 0} (reply : List Call → FileCall → Outcome A) (call : FileCall)
    → Framed (ask reply call)
unfolding ask
Framed-ask reply call = record { same = λ w. refl }

pub ruleset frame_rules = (
  Framed-pure, Framed-raise, Framed-lift, Framed-if, Framed-try, Framed-bind, Framed-unless,
  Framed-find_job, Framed-read, Framed-write, Framed-write_state, Framed-attempt, Framed-remove,
  Framed-log, Framed-get_status, Framed-cancel, Framed-submit, Framed-ask,
)

module _ {A : Type 0} (prev : Option JobState) (P : World → Type 0) (Q : A → World → Type 0)
    (E : Exn → World → Type 0) where
  framed-Post :
      (r : Outcome A × World)
      → r.1.previous_state ≡ prev
      → Post Q E r
      → Post (λ a w. Q a w × (w.previous_state ≡ prev)) (λ e w. E e w × (w.previous_state ≡ prev)) r
  framed-Post (ok a, w) e h = (h, e)
  framed-Post (raised x, w) e h = (h, e)

  -- What is known of `previous_state` before a framed action is known after it.
  pub Triple-frame :
      {m : M A}
      → Framed m
      → Triple P m Q E
      → Triple
          (λ w. P w × (w.previous_state ≡ prev))
          m
          (λ a w. Q a w × (w.previous_state ≡ prev))
          (λ e w. E e w × (w.previous_state ≡ prev))
  Triple-frame {m = m} k t = record {
    run = λ w h. framed-Post (m w) (k.same w ∙ h.1) (t.run w h.0);
  }
