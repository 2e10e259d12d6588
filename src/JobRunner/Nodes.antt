-- ===== src/JobRunner/Nodes.antt =====
-- JobRunner.start_job: the number of nodes that is reserved.
use simple_cwl_xenon_service.Prelude.{ℕ, zero, suc, ◌+◌, ◌*◌, ◌≤◌, ◌<◌, ◌≡◌, refl, some, arith}
use simple_cwl_xenon_service.Prelude.Int.{pos}
use simple_cwl_xenon_service.Exception.{ok}
use simple_cwl_xenon_service.JobRunner.{nodes_for, ceil_div}

-- If a job requires cores and a node has some, then a number of nodes is reserved that has the cores
-- which the job requires, and no whole node more.
pub nodes_for-bounds :
    (required cores_per_node : ℕ)
    → 0 < required
    → 0 < cores_per_node
    → (nodes : ℕ) × (nodes_for (pos required) cores_per_node ≡ ok (some nodes))
      × (required ≤ nodes * cores_per_node)
      × (nodes * cores_per_node < required + cores_per_node)
unfolding nodes_for
nodes_for-bounds zero c h k = ground arith
nodes_for-bounds (suc n) zero h k = ground arith
nodes_for-bounds (suc n) (suc c) h k = (ceil_div (suc n) (suc c), refl, omega arith, omega arith)
