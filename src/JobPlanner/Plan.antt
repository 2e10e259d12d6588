-- ===== src/JobPlanner/Plan.antt =====
-- What a plan is: the number of cores and the time limit of a job, said without the code's loops.
use simple_cwl_xenon_service.Prelude.{◌≡◌, ◌⊎◌, String, Option, some, List, [], ◌∷◌, true}
use simple_cwl_xenon_service.Prelude.Int.{ℤ, pos, ◌≤ℤ◌, ltb_ℤ}
use simple_cwl_xenon_service.Exception.{Outcome, ok}
use simple_cwl_xenon_service.Value.{Value, as_int}
use simple_cwl_xenon_service.Cwl.{get_workflow_step_names, get_required_num_cores, get_time_limit}
use simple_cwl_xenon_service.JobPlanner.{Requirement, Requirements, find_requirement, sum_from}
use simple_cwl_xenon_service.JobPlanner.Bounds.{AllAtMost, IsIn}
use simple_cwl_xenon_service.JobStore.Table.{Row}
use simple_cwl_xenon_service.World.At.{Stable}

-- The steps are known, with these requirements.
abbrev pub AllKnown : Requirements → List Value → List Requirement → Type 0
AllKnown reqs [] [] = Unit
AllKnown reqs (step ∷ steps) (r ∷ rs) =
    (find_requirement reqs step ≡ ok (some r)) × AllKnown reqs steps rs
AllKnown reqs _ _ = ⊥

-- The requirements have these numbers in this entry.
abbrev pub HaveNumbers : (Requirement → Value) → List Requirement → List ℤ → Type 0
HaveNumbers entry [] [] = Unit
HaveNumbers entry (r ∷ rs) (n ∷ ns) = (as_int (entry r) ≡ ok n) × HaveNumbers entry rs ns
HaveNumbers entry _ _ = ⊥

-- The largest number that a step asks for, if it is positive, and else the workflow's own.
abbrev pub AreEnough : ℤ → List ℤ → ℤ → Type 0
AreEnough own cores n =
    ((ltb_ℤ (pos 0) n ≡ true) × IsIn n cores × AllAtMost n cores)
    ⊎ ((n ≡ own) × AllAtMost (pos 0) cores)

-- The larger of the workflow's own limit and the sum of the steps'.
abbrev pub IsLimit : ℤ → List ℤ → ℤ → Type 0
IsLimit own limits t =
    (own ≤ℤ t) × (sum_from (pos 0) limits ≤ℤ t) × ((t ≡ own) ⊎ (t ≡ sum_from (pos 0) limits))

module _ (safe_load : String → Outcome Value) (as_column : Value → Outcome ℤ)
    (reqs : Requirements) where
  -- A workflow that can be planned: it has a step, its steps are known, and every requirement is a
  -- number.
  pub record Plannable (content : Option String) : Type 0 where
    pub first : Value
    pub steps : List Value
    pub found : List Requirement
    pub own_cores : Value
    pub own_limit : Value
    pub own_cores_number : ℤ
    pub own_limit_number : ℤ
    pub cores : List ℤ
    pub limits : List ℤ
    pub are_listed : get_workflow_step_names safe_load content ≡ ok (first ∷ steps)
    pub are_known : AllKnown reqs (first ∷ steps) found
    pub asks_cores : get_required_num_cores safe_load content ≡ ok own_cores
    pub asks_limit : get_time_limit safe_load content ≡ ok own_limit
    pub is_cores : as_column own_cores ≡ ok own_cores_number
    pub is_limit : as_column own_limit ≡ ok own_limit_number
    pub have_cores : HaveNumbers (λ r. r.num_cores) found cores
    pub have_limits : HaveNumbers (λ r. r.time_limit) found limits

-- A predicate on the columns that planning reads and writes.
abbrev pub HasColumns : Option String → (ℤ → ℤ → Type 0) → Row → Type 0
HasColumns content P r = (r.workflow_content ≡ content) × P r.required_num_cores r.time_limit

pub HasColumns-Stable :
    (content : Option String) (P : ℤ → ℤ → Type 0) → Stable (HasColumns content P)
HasColumns-Stable content P = record { of_cancel = λ r h. h; of_delete = λ r h. h }
