-- ===== src/ExecutionManager/Calm.antt =====
-- Actions that return wherever a job has a row.
use simple_cwl_xenon_service.Prelude.{ℕ, ◌≡◌, refl, Bool, true, false, inl, inr, Bool-cases}
use simple_cwl_xenon_service.Exception.{Exn, Outcome, ok, raised}
use simple_cwl_xenon_service.JobState.{JobState, is_final}
use simple_cwl_xenon_service.JobStore.Table.{Row}
use simple_cwl_xenon_service.World.{World, M, read, attempt, unless, ◌>>=◌}
use simple_cwl_xenon_service.World.At.{Stable, InState, InState-Stable, StableTest, At}
use simple_cwl_xenon_service.World.Triple.{
  Triple, Post, Never, Attempted, Triple-pure, Triple-forget, Triple-fact, Triple-bind, Triple-read,
  Triple-attempt, At-map,
}
use simple_cwl_xenon_service.ExecutionManager.Recovery.{anywhere}
use simple_cwl_xenon_service.ExecutionManager.Process.{when}

-- Where the job has a row, the action returns, and the job still has one.
abbrev pub Calm : ℕ → {A : Type 0} → M A → Type 0
Calm id m = Triple (At id (InState anywhere)) m (λ _. At id (InState anywhere)) Never

meet-Post :
    {A : Type 0} (Q R : A → World → Type 0) (E D : Exn → World → Type 0) (r : Outcome A × World)
    → Post Q E r
    → Post R Never r
    → Post Q D r
meet-Post Q R E D (ok a, w) h k = h
meet-Post Q R E D (raised e, w) h k = absurd k

-- An action that returns, by one triple, does what another one says without its exceptions.
pub Triple-meet :
    {A : Type 0} {P P' : World → Type 0} {m : M A} {Q R : A → World → Type 0}
    {E D : Exn → World → Type 0}
    → ((w : World) → P w → P' w)
    → Triple P m Q E
    → Triple P' m R Never
    → Triple P m Q D
Triple-meet {m = m} {Q = Q} {R = R} {E = E} {D = D} f t k = record {
  run = λ w p. meet-Post Q R E D (m w) (t.run w p) (k.run w (f w p));
}

module _ (id : ℕ) where
  abbrev pub Here : World → Type 0
  Here = At id (InState anywhere)

  abbrev pub IsFinal : World → Type 0
  IsFinal = At id (InState is_final)

  pub here : Stable (InState anywhere)
  here = InState-Stable anywhere (λ s h. refl)

  pub to_here : {P : Row → Type 0} (w : World) → At id P w → Here w
  to_here w a = At-map (λ r h. refl) a

  pub attempt-Calm : (from to : JobState) → Calm id (attempt from to id)
  attempt-Calm from to =
      Triple-forget {R = Attempted id (InState anywhere) (InState anywhere)} either (
        Triple-attempt id here (InState anywhere) (InState anywhere) from to (λ r h e. refl)
          (λ r h n. refl))
    where
      either :
          (b : Bool) (w : World) → Attempted id (InState anywhere) (InState anywhere) b w → Here w
      either true w a = a
      either false w a = a

  pub unless-Calm : (b : Bool) {m : M Unit} → Calm id m → Calm id (unless b m)
  unless-Calm true k = Triple-pure tt (λ w h. h)
  unless-Calm false k = k

  -- `if test(job.state): m`, where no state of the job passes the test.
  pub when-never :
      {S : JobState → Bool} {E : Exn → World → Type 0}
      → StableTest S
      → (test : JobState → Bool) (m : M Unit) → ((s : JobState) → S s ≡ true → test s ≡ true → ⊥)
      → Triple
          (At id (InState S))
          (read (λ r. r.state) id >>= λ state. when (test state) m)
          (λ _. At id (InState S))
          E
  when-never {S = S} stable test m never =
      Triple-bind (Triple-read id (InState-Stable S stable) (λ r. r.state)) λ state.
        elim (Bool-cases (test state)) [
          | inl e ↦
              Triple-fact {X = ⊥} (λ w h. never h.row.0.state h.row.2.0 (rw h.row.2.1 e))
                (λ x. absurd x)
          | inr n ↦ rw n (Triple-pure tt (λ w h. At-map (λ r q. q.0) h))
        ]

  pub drop :
      {A : Type 0} {S : JobState → Bool} {E : Exn → World → Type 0}
      → StableTest S
      → (column : Row → A) → Triple (At id (InState S)) (read column id) (λ _. At id (InState S)) E
  drop {S = S} stable column =
      Triple-forget (λ v w a. At-map (λ r q. q.0) a)
        (Triple-read id (InState-Stable S stable) column)
