-- ===== src/World/Keeps.antt =====
-- Invariants of the back end's actions: one rule for each way to build an action, for any property of
-- worlds. `Steps` lists the actions on a job, and what has to be shown of them.
use simple_cwl_xenon_service.Prelude.{
  ℕ, ◌≡◌, refl, sym, Bool, true, false, if◌then◌else◌, length, arith, ◌==◌, Bool-cases, inl, inr,
  not, ◌||◌,
}
use simple_cwl_xenon_service.Exception.{Exn, Outcome, ok, raised, or_raise, job_not_found}
use simple_cwl_xenon_service.JobState.{
  JobState, submitted, staging_in, staging_in_cr, system_error, state_eq,
}
use simple_cwl_xenon_service.JobStore.{Store, rows, get_job}
use simple_cwl_xenon_service.World.{
  World, M, pure, raise, lift, continue, ◌>>=◌, handle, try_except, statement, interfere, find_job,
  write_state, attempt, unless,
}
use simple_cwl_xenon_service.World.Quiet.{Quiet}

-- `m` keeps `I`, whether it returns or raises.
pub record Keeps (I : World → Type 0) {A : Type 0} (m : M A) : Type 0 where
  pub at : (w : World) → I w → I (m w).1

-- `m` reads and writes local variables only, and leaves `previous_state` as it is.
pub record LocalOnly {A : Type 0} (m : M A) : Type 0 where
  pub store : (w : World) → (m w).1.store ≡ w.store
  pub env : (w : World) → (m w).1.env ≡ w.env
  pub previous : (w : World) → (m w).1.previous_state ≡ w.previous_state

module _ {I : World → Type 0} {A : Type 0} where
  pub Keeps-pure : (a : A) → Keeps I (pure a)
  Keeps-pure a = record { at = λ w h. h }

  pub Keeps-raise : (e : Exn) → Keeps I (raise {A = A} e)
  Keeps-raise e = record { at = λ w h. h }

  pub Keeps-lift : (r : Outcome A) → Keeps I (lift r)
  Keeps-lift r = record { at = λ w h. h }

  pub Keeps-if : (b : Bool) (m n : M A) → Keeps I m → Keeps I n → Keeps I (if b then m else n)
  Keeps-if true m n km kn = km
  Keeps-if false m n km kn = kn

  handle-Keeps :
      (f : Exn → M A)
      → ((e : Exn) → Keeps I (f e))
      → (r : Outcome A × World) → I r.1
      → I (handle f r).1
  handle-Keeps f kf (ok a, w) h = h
  handle-Keeps f kf (raised e, w) h = (kf e).at w h

  pub Keeps-try :
      (m : M A) (f : Exn → M A) → Keeps I m → ((e : Exn) → Keeps I (f e)) → Keeps I (try_except m f)
  Keeps-try m f km kf = record { at = λ w h. handle-Keeps f kf (m w) (km.at w h) }

pub Keeps-unless : {I : World → Type 0} (b : Bool) (m : M Unit) → Keeps I m → Keeps I (unless b m)
Keeps-unless true m k = Keeps-pure tt
Keeps-unless false m k = k

module _ {I : World → Type 0} {A B : Type 0} where
  continue-Keeps :
      (f : A → M B)
      → (r : Outcome A × World) → ((a : A) → r.0 ≡ ok a → Keeps I (f a))
      → I r.1
      → I (continue f r).1
  continue-Keeps f (ok a, w) kf h = (kf a refl).at w h
  continue-Keeps f (raised e, w) kf h = h

  pub Keeps-bind :
      (m : M A) (f : A → M B) → Keeps I m → ((a : A) → Keeps I (f a)) → Keeps I (m >>= f)
  Keeps-bind m f km kf = record { at = λ w h. continue-Keeps f (m w) (λ a _. kf a) (km.at w h) }

  -- The rest of the block may use which value the action returned.
  pub Keeps-bind-ok :
      (m : M A) (f : A → M B)
      → Keeps I m
      → ((w : World) (a : A) → (m w).0 ≡ ok a → Keeps I (f a))
      → Keeps I (m >>= f)
  Keeps-bind-ok m f km kf = record { at = λ w h. continue-Keeps f (m w) (kf w) (km.at w h) }

pub ruleset keeps_rules =
    (Keeps-pure, Keeps-raise, Keeps-lift, Keeps-if, Keeps-try, Keeps-unless, Keeps-bind)

get_job-same : (id k : ℕ) (s : Store) → or_raise (get_job id s) job_not_found ≡ ok k → id ≡ k
unfolding get_job
get_job-same id k s h = elim (Bool-cases (length (rows id s) == 0)) [
  | inl e ↦ ground (arith, rw e at h)
  | inr n ↦ ground (arith, rw n at h)
]

-- `get_job` returns the job that it was asked for.
find_job-same : (id k : ℕ) (w : World) → (find_job id w).0 ≡ ok k → id ≡ k
unfolding find_job statement
find_job-same id k w h = get_job-same id k (interfere w).store h

pub Keeps-find_job :
    {I : World → Type 0} {B : Type 0} (id : ℕ) (f : ℕ → M B)
    → Keeps I (find_job id)
    → Keeps I (f id)
    → Keeps I (find_job id >>= f)
Keeps-find_job id f k kf =
    Keeps-bind-ok (find_job id) f k (λ w j e. rw (sym (find_job-same id j w e)) kf)

-- The states of a job that has gone beyond staging in.
unfoldable pub staged_in : JobState → Bool
unfolding state_eq
staged_in s = not (state_eq s submitted || state_eq s staging_in || state_eq s staging_in_cr)

-- The actions of the back end that a job's methods are made of, except that it is removed, that its
-- round begins, and that it is put back into an earlier state.
pub record Steps (I : World → Type 0) (id : ℕ) : Type 1 where
  pub of_quiet : {A : Type 0} {m : M A} → Quiet m → Keeps I m
  pub of_local : {A : Type 0} {m : M A} → LocalOnly m → Keeps I m
  pub of_write_state : (state : JobState) → staged_in state ≡ true → Keeps I (write_state state id)
  pub of_attempt : (from to : JobState) → staged_in to ≡ true → Keeps I (attempt from to id)
  pub of_submission : Keeps I (attempt submitted staging_in id)
  -- The handlers write SYSTEM_ERROR to the job that a local variable names.
  pub of_mark : (j : ℕ) → Keeps I (write_state system_error j)
