-- ===== src/World/Triple.antt =====
-- Total-correctness triples for the back end's actions: from a world with `P`, the action returns
-- into `Q` or raises into `E`. Each rule takes the first action off a sequence; a statement's rule
-- lets the front end run first, so the predicate on the row has to be stable.
use simple_cwl_xenon_service.Prelude.{
  ℕ, ◌≡◌, refl, Bool, true, false, String, List, ==_refl, if◌then◌else◌,
}
use simple_cwl_xenon_service.Exception.{Exn, Outcome, ok, raised}
use simple_cwl_xenon_service.JobState.{JobState, state_eq}
use simple_cwl_xenon_service.JobStore.{Store, with_state, set_state, try_transition}
use simple_cwl_xenon_service.JobStore.Table.{Row}
use simple_cwl_xenon_service.JobStore.Select.{KeepsId, rows-add_log, rows-delete_job}
use simple_cwl_xenon_service.JobStore.Single.{
  Single, Single-set_var, Single-try_transition, done-Single, get_job-Single, get_var-Single,
}
use simple_cwl_xenon_service.World.{
  World, Site, M, pure, raise, lift, continue, ◌>>=◌, handle, try_except, statement, interfere,
  find_job, read, write, write_state, attempt, remove, log, after_front, unless,
}
use simple_cwl_xenon_service.World.At.{Stable, InState, StableTest, At, interfere-At}
use simple_cwl_xenon_service.World.Gone.{Gone}
use simple_cwl_xenon_service.World.Quiet.{Quiet}

abbrev pub Post :
    {A : Type 0} → (A → World → Type 0) → (Exn → World → Type 0) → Outcome A × World → Type 0
Post Q E (ok a, w) = Q a w
Post Q E (raised e, w) = E e w

pub record Triple {A : Type 0} (P : World → Type 0) (m : M A) (Q : A → World → Type 0)
    (E : Exn → World → Type 0) : Type 0 where
  pub run : (w : World) → P w → Post Q E (m w)

-- No exception.
abbrev pub Never : Exn → World → Type 0
Never e w = ⊥

module _ {A : Type 0} {Q : A → World → Type 0} {E : Exn → World → Type 0} where
  pub Triple-pure :
      {P : World → Type 0} (a : A) → ((w : World) → P w → Q a w) → Triple P (pure a) Q E
  Triple-pure a h = record { run = h }

  pub Triple-raise :
      {P : World → Type 0} (e : Exn) → ((w : World) → P w → E e w) → Triple P (raise e) Q E
  Triple-raise e h = record { run = h }

  pub Triple-lift :
      {P : World → Type 0} (r : Outcome A)
      → ((a : A) (w : World) → r ≡ ok a → P w → Q a w)
      → ((e : Exn) (w : World) → r ≡ raised e → P w → E e w)
      → Triple P (lift r) Q E
  Triple-lift (ok a) h k = record { run = λ w p. h a w refl p }
  Triple-lift (raised e) h k = record { run = λ w p. k e w refl p }

  pub Triple-weaken :
      {P P' : World → Type 0} {m : M A}
      → ((w : World) → P w → P' w)
      → Triple P' m Q E
      → Triple P m Q E
  Triple-weaken h t = record { run = λ w p. t.run w (h w p) }

  -- A fact that every world before the action shows.
  pub Triple-fact :
      {X : Type 0} {P : World → Type 0} {m : M A}
      → ((w : World) → P w → X)
      → (X → Triple P m Q E)
      → Triple P m Q E
  Triple-fact fact t = record { run = λ w p. (t (fact w p)).run w p }

  pub Triple-if :
      {P : World → Type 0} {m n : M A} (b : Bool)
      → (b ≡ true → Triple P m Q E)
      → (b ≡ false → Triple P n Q E)
      → Triple P (if b then m else n) Q E
  Triple-if true tm tn = tm refl
  Triple-if false tm tn = tn refl

-- A predicate that holds on both ends of an action.
pub same-Post :
    {A : Type 0} (I : World → Type 0) (r : Outcome A × World) → Post (λ _. I) (λ _. I) r → I r.1
same-Post I (ok a, w) h = h
same-Post I (raised e, w) h = h

pub At-map :
    {id : ℕ} {P P' : Row → Type 0} {w : World} → ((r : Row) → P r → P' r) → At id P w → At id P' w
At-map f a = record { row = (a.row.0, a.row.1, f a.row.0 a.row.2); apart = a.apart }

forget-Post :
    {A : Type 0} (R Q : A → World → Type 0) (E : Exn → World → Type 0) (r : Outcome A × World)
    → ((a : A) (w : World) → R a w → Q a w)
    → Post R E r
    → Post Q E r
forget-Post R Q E (ok a, w) f h = f a w h
forget-Post R Q E (raised e, w) f h = h

pub Triple-forget :
    {A : Type 0} {P : World → Type 0} {m : M A} {R Q : A → World → Type 0}
    {E : Exn → World → Type 0}
    → ((a : A) (w : World) → R a w → Q a w)
    → Triple P m R E
    → Triple P m Q E
Triple-forget {m = m} {R = R} {Q = Q} {E = E} f t = record {
  run = λ w p. forget-Post R Q E (m w) f (t.run w p);
}

raises-Post :
    {A : Type 0} (Q : A → World → Type 0) (D E : Exn → World → Type 0) (r : Outcome A × World)
    → ((e : Exn) (w : World) → D e w → E e w)
    → Post Q D r
    → Post Q E r
raises-Post Q D E (ok a, w) f h = h
raises-Post Q D E (raised e, w) f h = f e w h

pub Triple-raises :
    {A : Type 0} {P : World → Type 0} {m : M A} {Q : A → World → Type 0}
    {D E : Exn → World → Type 0}
    → ((e : Exn) (w : World) → D e w → E e w)
    → Triple P m Q D
    → Triple P m Q E
Triple-raises {m = m} {Q = Q} {D = D} {E = E} f t = record {
  run = λ w p. raises-Post Q D E (m w) f (t.run w p);
}

module _ {A B : Type 0} {R : A → World → Type 0} {Q : B → World → Type 0}
    {E : Exn → World → Type 0} where
  bind-Post :
      (f : A → M B)
      → ((a : A) → Triple (R a) (f a) Q E)
      → (r : Outcome A × World) → Post R E r
      → Post Q E (continue f r)
  bind-Post f tf (ok a, w) h = (tf a).run w h
  bind-Post f tf (raised e, w) h = h

  pub Triple-bind :
      {P : World → Type 0} {m : M A} {f : A → M B}
      → Triple P m R E
      → ((a : A) → Triple (R a) (f a) Q E)
      → Triple P (m >>= f) Q E
  Triple-bind {m} {f} tm tf = record { run = λ w p. bind-Post f tf (m w) (tm.run w p) }

module _ {A : Type 0} {Q : A → World → Type 0} {E D : Exn → World → Type 0} where
  handle-Post :
      (f : Exn → M A)
      → ((e : Exn) → Triple (D e) (f e) Q E)
      → (r : Outcome A × World) → Post Q D r
      → Post Q E (handle f r)
  handle-Post f tf (ok a, w) h = h
  handle-Post f tf (raised e, w) h = (tf e).run w h

  pub Triple-try :
      {P : World → Type 0} {m : M A} {f : Exn → M A}
      → Triple P m Q D
      → ((e : Exn) → Triple (D e) (f e) Q E)
      → Triple P (try_except m f) Q E
  Triple-try {m} {f} tm tf = record { run = λ w p. handle-Post f tf (m w) (tm.run w p) }

module _ {A : Type 0} (id : ℕ) {P : Row → Type 0} (stable : Stable P) where
  -- A statement, given what it does to a store in which the row is `r`.
  pub Triple-statement :
      {Q : A → World → Type 0} {E : Exn → World → Type 0} (f : Store → Outcome A × Store)
      → ((r : Row) (w : World) → P r → Single id r w.store → At id P w → Post Q E (after_front f w))
      → Triple (At id P) (statement f) Q E
  unfolding statement
  Triple-statement f h = record {
    run = λ w a.
        let a' = interfere-At id P stable w a in h a'.row.0 (interfere w) a'.row.2 a'.row.1 a';
  }

-- The job has exactly this row.
abbrev pub IsRow : Row → Row → Type 0
IsRow r x = x ≡ r

-- The row after a transition that took place or not.
abbrev pub Attempted : ℕ → (Row → Type 0) → (Row → Type 0) → Bool → World → Type 0
Attempted id P₁ P₂ true = At id P₁
Attempted id P₁ P₂ false = At id P₂

attempt-Post :
    (id : ℕ) (P P₁ P₂ : Row → Type 0) (to : JobState) (r : Row) (w : World) (b : Bool) (s : Store)
    → Single id (if b then with_state to r else r) s
    → (b ≡ true → P₁ (with_state to r))
    → (b ≡ false → P₂ r)
    → At id P w
    → Attempted id P₁ P₂ b (record w { store = s })
attempt-Post id P P₁ P₂ to r w true s one h₁ h₂ a = record {
  row = (with_state to r, one, h₁ refl);
  apart = a.apart;
}
attempt-Post id P P₁ P₂ to r w false s one h₁ h₂ a = record {
  row = (r, one, h₂ refl);
  apart = a.apart;
}

pub Triple-unless :
    {id : ℕ} {P₁ P₂ : Row → Type 0} {m : M Unit} {Q : Unit → World → Type 0}
    {E : Exn → World → Type 0}
    → ((w : World) → At id P₁ w → Q tt w)
    → Triple (At id P₂) m Q E
    → (b : Bool) → Triple (Attempted id P₁ P₂ b) (unless b m) Q E
Triple-unless h t true = record { run = h }
Triple-unless h t false = t

module _ (id : ℕ) {P : Row → Type 0} (stable : Stable P) {E : Exn → World → Type 0} where
  pub Triple-find_job : Triple (At id P) (find_job id) (λ j w. (j ≡ id) × At id P w) E
  unfolding find_job
  Triple-find_job =
      Triple-statement id stable _ λ r w p one a. rw (get_job-Single id r w.store one) (refl, a)

  pub Triple-read :
      {A : Type 0} (column : Row → A)
      → Triple (At id P) (read column id) (λ v w. At id (λ r. P r × (column r ≡ v)) w) E
  unfolding read
  Triple-read column = Triple-statement id stable _ λ r w p one a.
      rw (get_var-Single id r w.store one column)
        (record { row = (r, one, (p, refl)); apart = a.apart })

  pub Triple-write :
      {P' : Row → Type 0} (assign : Row → Row)
      → KeepsId assign
      → ((r : Row) → P r → P' (assign r))
      → Triple (At id P) (write assign id) (λ _. At id P') E
  unfolding write
  Triple-write assign keeps h = Triple-statement id stable _ λ r w p one a. record {
    row = (assign r, Single-set_var id r w.store one assign keeps, h r p);
    apart = a.apart;
  }

  pub Triple-write_state :
      {P' : Row → Type 0} (state : JobState)
      → ((r : Row) → P r → P' (with_state state r))
      → Triple (At id P) (write_state state id) (λ _. At id P') E
  unfolding write_state set_state
  Triple-write_state state h = Triple-statement id stable _ λ r w p one a. record {
    row =
        (with_state state r, Single-set_var id r w.store one (with_state state) (λ _. refl), h r p);
    apart = a.apart;
  }

  pub Triple-attempt :
      (P₁ P₂ : Row → Type 0) (from to : JobState)
      → ((r : Row) → P r → state_eq r.state from ≡ true → P₁ (with_state to r))
      → ((r : Row) → P r → state_eq r.state from ≡ false → P₂ r)
      → Triple (At id P) (attempt from to id) (Attempted id P₁ P₂) E
  unfolding attempt
  Triple-attempt P₁ P₂ from to h₁ h₂ = Triple-statement id stable _ λ r w p one a.
      rw (done-Single id r w.store one from to) (
        attempt-Post id P P₁ P₂ to r w (state_eq r.state from) (try_transition from to id w.store).1
          (Single-try_transition id r w.store one from to) (h₁ r p) (h₂ r p) a)

  pub Triple-log :
      (site : Site) (level : ℕ) (message : List String)
      → Triple (At id P) (log site id level message) (λ _. At id P) E
  unfolding log statement
  Triple-log site level message = record {
    run = λ w a.
        let a' = interfere-At id P stable w a in
        record {
          row = (
            a'.row.0,
            rw (rows-add_log id level site.time w.ticks id message (interfere w).store) a'.row.1,
            a'.row.2,
          );
          apart = a'.apart;
        };
  }

pub Triple-remove :
    (id : ℕ) {P : Row → Type 0} {E : Exn → World → Type 0}
    → Stable P
    → Triple (At id P) (remove id) (λ _. Gone id) E
unfolding remove
Triple-remove id stable = Triple-statement id stable _ λ r w p one a. record {
  no_row = rw (rows-delete_job id id w.store, ==_refl id) refl;
  apart = a.apart;
}

-- An action that moves no job, between two tests on the state.
module _ (id : ℕ) {S : JobState → Bool} (stable : StableTest S) where
  quiet-Post :
      {A : Type 0} (r : Outcome A × World)
      → At id (InState S) r.1
      → Post (λ _. At id (InState S)) (λ _. At id (InState S)) r
  quiet-Post (ok a, w) h = h
  quiet-Post (raised e, w) h = h

  pub Triple-quiet :
      {A : Type 0} {m : M A}
      → Quiet m
      → Triple (At id (InState S)) m (λ _. At id (InState S)) (λ _. At id (InState S))
  Triple-quiet {m = m} q = record { run = λ w a. quiet-Post (m w) (q.at id S stable w a) }
