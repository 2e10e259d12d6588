-- ===== src/JobPlanner/Exact.antt =====
-- `plan_job` on a workflow that can be planned, one action after the other.
use simple_cwl_xenon_service.Prelude.{ℕ, ◌≡◌, String, Option, List}
use simple_cwl_xenon_service.Prelude.Int.{ℤ}
use simple_cwl_xenon_service.Exception.{Outcome, ok}
use simple_cwl_xenon_service.Value.{Value}
use simple_cwl_xenon_service.World.{Site, World}
use simple_cwl_xenon_service.World.At.{At}
use simple_cwl_xenon_service.World.Triple.{Triple}
use simple_cwl_xenon_service.JobPlanner.{Requirements, max_list}
use simple_cwl_xenon_service.JobPlanner.Bounds.{AllAtMost, IsIn}
use simple_cwl_xenon_service.JobPlanner.Plan.{AreEnough, Plannable, HasColumns}

-- The maximum of what the steps ask for.
abbrev HasMost : List ℤ → Type 0
HasMost cores = (m : ℤ) × (max_list cores ≡ ok m) × AllAtMost m cores × IsIn m cores

module _ (safe_load : String → Outcome Value) (as_column : Value → Outcome ℤ)
    (show : Value → String) (site : Site) (reqs : Requirements) (id : ℕ) where
  module _ (content : Option String) (can : Plannable safe_load as_column reqs content) where
    abbrev Holding : (ℤ → ℤ → Type 0) → World → Type 0
    Holding P = At id (HasColumns content P)

    abbrev Enough : ℤ → Type 0
    Enough n = AreEnough can.own_cores_number can.cores n
