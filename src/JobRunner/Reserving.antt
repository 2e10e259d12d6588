-- ===== src/JobRunner/Reserving.antt =====
-- What `start_job` reserves for a planned job.
use simple_cwl_xenon_service.Prelude.{
  ℕ, zero, suc, ◌*◌, ◌<◌, ◌≡◌, refl, ◌∙◌, subst, inl, inr, String, Option, none, some, List, [],
  ◌∷◌, arith,
}
use simple_cwl_xenon_service.Prelude.Int.{ℤ, pos, negsuc, ◌≤ℤ◌}
use simple_cwl_xenon_service.Exception.{Exn, Outcome, ok, raised}
use simple_cwl_xenon_service.JobPlanner.{sum_from}
use simple_cwl_xenon_service.JobPlanner.Bounds.{AllAtMost, AllAtMost-le}
use simple_cwl_xenon_service.JobPlanner.Plan.{AreEnough, IsLimit, HasColumns, HasColumns-Stable}
use simple_cwl_xenon_service.JobRunner.{
  Runner, nodes_for, ceil_div, time_for, describe_job, start_job, set_remote_job_id,
}
use simple_cwl_xenon_service.JobStore.Table.{Row}
use simple_cwl_xenon_service.World.{
  World, Site, JobDescription, Call, submit, M, ◌>>=◌, read, write, sched_submit, interfere,
  take_batch, statement,
}
use simple_cwl_xenon_service.World.At.{Stable, At}
use simple_cwl_xenon_service.World.Triple.{
  Triple, Post, Triple-pure, Triple-bind, Triple-read, Triple-forget, Triple-fact, Triple-weaken,
  At-map,
}
use simple_cwl_xenon_service.World.Known.{Triple-ok, Triple-find_known}
use simple_cwl_xenon_service.Front.Steps.{FrontStep}

-- The cores on a number of nodes, and none where the number is left out.
abbrev pub cores_on : Option ℕ → ℕ → ℤ
cores_on none cores_per_node = pos 0
cores_on (some nodes) cores_per_node = pos (nodes * cores_per_node)

abbrev pub seconds : Option ℕ → ℤ
seconds none = pos 0
seconds (some n) = pos n

-- The description reserves the cores that each step asks for, and the time that the workflow and
-- all its steps ask for.
abbrev pub Suits : ℤ → List ℤ → List ℤ → ℕ → JobDescription → Type 0
Suits own_limit cores limits cores_per_node desc =
    AllAtMost (cores_on desc.num_nodes cores_per_node) cores
    × (own_limit ≤ℤ seconds desc.time_reserved)
    × (sum_from (pos 0) limits ≤ℤ seconds desc.time_reserved)

-- The newest call to the outside submits such a description.
abbrev pub IsSubmitted : (JobDescription → Type 0) → World → Type 0
IsSubmitted P w =
    (desc : JobDescription) × (calls : List Call) × (w.calls ≡ submit desc ∷ calls) × P desc

abbrev HasNodes : List ℤ → ℤ → ℕ → Type 0
HasNodes cores n c =
    (nodes : Option ℕ) × (nodes_for n c ≡ ok nodes) × AllAtMost (cores_on nodes c) cores

nodes_for-AreEnough :
    (own : ℤ) (cores : List ℤ) (n : ℤ) (c : ℕ) → 0 < c → AreEnough own cores n → HasNodes cores n c
unfolding nodes_for
nodes_for-AreEnough own cores (negsuc n) c h (inl (lt, is_in, at_most)) = ground arith
nodes_for-AreEnough own cores (negsuc n) c h (inr (e, at_most)) = (none, refl, at_most)
nodes_for-AreEnough own cores (pos zero) c h (inl (lt, is_in, at_most)) = ground arith
nodes_for-AreEnough own cores (pos zero) c h (inr (e, at_most)) = (none, refl, at_most)
nodes_for-AreEnough own cores (pos (suc n)) zero h enough = ground arith
nodes_for-AreEnough own cores (pos (suc n)) (suc c) h (inl (lt, is_in, at_most)) =
    let covers : pos (suc n) ≤ℤ pos (ceil_div (suc n) (suc c) * suc c) = omega arith in
    (
      some (ceil_div (suc n) (suc c)),
      refl,
      AllAtMost-le (pos (suc n)) (pos (ceil_div (suc n) (suc c) * suc c)) cores covers at_most,
    )
nodes_for-AreEnough own cores (pos (suc n)) (suc c) h (inr (e, at_most)) =
    let covers : pos 0 ≤ℤ pos (ceil_div (suc n) (suc c) * suc c) = omega arith in
    (
      some (ceil_div (suc n) (suc c)),
      refl,
      AllAtMost-le (pos 0) (pos (ceil_div (suc n) (suc c) * suc c)) cores covers at_most,
    )

le-time_for : (m t : ℤ) → m ≤ℤ t → m ≤ℤ seconds (time_for t)
unfolding time_for
le-time_for m (negsuc n) h = omega (arith, h)
le-time_for m (pos zero) h = h
le-time_for m (pos (suc n)) h = h

take_batch-calls : (env : List (List FrontStep)) (w : World) → (take_batch env w).calls ≡ w.calls
take_batch-calls [] w = refl
take_batch-calls (batch ∷ rest) w = refl

module _ (site : Site) (runner : Runner) (id : ℕ) (content : Option String) (own own_limit : ℤ)
    (cores limits : List ℤ) (some_cores : 0 < runner.cores_per_node) where
  abbrev Planned : Row → Type 0
  Planned = HasColumns content λ n t. AreEnough own cores n × IsLimit own_limit limits t

  abbrev Suitable : JobDescription → Type 0
  Suitable = Suits own_limit cores limits runner.cores_per_node

  planned : Stable Planned
  planned = HasColumns-Stable content _

  -- A column whose value does not matter.
  after_read :
      {A B : Type 0} {Q : B → World → Type 0} {E : Exn → World → Type 0} (column : Row → A)
      (f : A → M B)
      → ((a : A) → Triple (At id Planned) (f a) Q E)
      → Triple (At id Planned) (read column id >>= f) Q E
  after_read column f t =
      Triple-bind (Triple-forget (λ v w a. At-map (λ r h. h.0) a) (Triple-read id planned column)) t

  -- A column whose value has what every planned row has.
  after_fact :
      {A B : Type 0} {Q : B → World → Type 0} {E : Exn → World → Type 0} (X : A → Type 0)
      (column : Row → A) (f : A → M B)
      → ((r : Row) → Planned r → X (column r))
      → ((a : A) → X a → Triple (At id Planned) (f a) Q E)
      → Triple (At id Planned) (read column id >>= f) Q E
  after_fact X column f fact t = Triple-bind (Triple-read id planned column) λ v.
      Triple-fact {X = X v} (λ w a. subst X a.row.2.1 (fact a.row.0 a.row.2.0))
        λ x. Triple-weaken (λ w a. At-map (λ r h. h.0) a) (t v x)

  describe_job-Suits :
      {E : Exn → World → Type 0}
      → Triple
          (At id Planned)
          (describe_job site runner id)
          (λ desc w. Suitable desc × At id Planned w)
          E
  unfolding describe_job
  describe_job-Suits = after_read _ _ λ workdir. after_read _ _ λ workflow. after_read _ _ λ input.
      after_read _ _ λ out. after_read _ _ λ err. after_read _ _ λ system_out.
        after_read _ _ λ system_err.
          after_fact (IsLimit own_limit limits) _ _ (λ r h. h.1.1)
            λ t limit.
              after_fact (AreEnough own cores) _ _ (λ r h. h.1.0)
                λ n enough.
                  let (nodes, e, covers) = nodes_for-AreEnough own cores n _ some_cores enough in
                  Triple-ok _ _ nodes e (
                    Triple-pure _ λ w a. (
                      (
                        covers,
                        le-time_for own_limit t limit.0,
                        le-time_for (sum_from (pos 0) limits) t limit.1,
                      ),
                      a,
                    ))

  write-calls :
      {P : JobDescription → Type 0} {E : Exn → World → Type 0} (assign : Row → Row) (j : ℕ)
      → Triple (IsSubmitted P) (write assign j) (λ _. IsSubmitted P) E
  unfolding write statement interfere
  write-calls assign j = record {
    run = λ w (desc, calls, e, p). (desc, calls, take_batch-calls w.env w ∙ e, p);
  }

  sched_submit-Suits :
      (desc : JobDescription)
      → Suitable desc
      → Triple
          (At id Planned)
          (sched_submit site desc >>= λ remote_id. write (set_remote_job_id remote_id) id)
          (λ _. IsSubmitted Suitable)
          (λ _. IsSubmitted Suitable)
  unfolding sched_submit
  sched_submit-Suits desc suits =
      Triple-bind {R = λ _. IsSubmitted Suitable}
        (record { run = λ w a. by_reply w (site.submit_reply w.calls desc) })
        λ remote_id. write-calls _ id
    where
      by_reply :
          (w : World) (reply : Outcome String)
          → Post
              (λ _. IsSubmitted Suitable)
              (λ _. IsSubmitted Suitable)
              (reply, record w { calls = submit desc ∷ w.calls })
      by_reply w (ok remote_id) = (desc, w.calls, refl, suits)
      by_reply w (raised e) = (desc, w.calls, refl, suits)

  -- Starting a planned job submits it: the newest call to the outside hands the scheduler a
  -- description that reserves enough nodes for the cores that each step asks for, and enough time
  -- for what the workflow itself and all its steps together ask for; it leaves a number out only
  -- where nothing positive was asked for. This holds also where the scheduler raises, and whatever
  -- the front end does meanwhile. A node has some cores, and the job has one row, planned, and its id
  -- is not drawn again.
  pub start_job-Suits :
      (w : World)
      → At id Planned w
      → Post (λ _. IsSubmitted Suitable) (λ _. IsSubmitted Suitable) (start_job site runner id w)
  unfolding start_job
  start_job-Suits w a =
      (Triple-find_known id planned _ (
          Triple-bind describe_job-Suits λ desc.
            Triple-fact {X = Suitable desc} (λ v h. h.0)
              λ suits. Triple-weaken (λ v h. h.1) (sched_submit-Suits desc suits))).run
        w a
