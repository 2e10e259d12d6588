-- ===== src/JobPlanner.antt =====
-- cerise/back_end/job_planner.py: the class JobPlanner. `safe_load` is the YAML parser; `show` is
-- `str`; `as_column` is what SQLite gives back for a value that was bound to a column of type INTEGER, or the exception
-- that binding it or computing with it raises.
pub mod Bounds
pub mod Laws
pub mod Plan
pub mod Exact
use Prim.Native.Char.{Char}
use Prim.Native.String
use Prim.Native.String.{◌++◌}
use text.Mathlib.Text.{◌==◌ as str_eq}
use simple_cwl_xenon_service.Prelude.{
  ℕ, String, Bool, true, false, Option, none, some, List, [], ◌∷◌, if◌then◌else◌, is_some,
}
use simple_cwl_xenon_service.Prelude.Int.{ℤ, pos, ◌+ℤ◌, max_ℤ, ltb_ℤ}
use simple_cwl_xenon_service.Exception
use simple_cwl_xenon_service.Exception.{
  Exn, Outcome, ok, raised, or_raise, type_error, key_error, value_error, invalid_job,
}
use simple_cwl_xenon_service.JobStore.{level_error}
use simple_cwl_xenon_service.JobStore.Table.{Row}
use simple_cwl_xenon_service.Value.{Value, null, bool, int, str, list, dict, as_int}
use simple_cwl_xenon_service.Cwl.{get_workflow_step_names, get_required_num_cores, get_time_limit}
use simple_cwl_xenon_service.World.{
  Site, M, pure, raise, lift, ◌>>=◌, ◌>>◌, find_job, read, write, log,
}

-- An inner dictionary of `_steps_requirements`.
pub record Requirement : Type 0 where
  pub num_cores : Value
  pub time_limit : Value

abbrev pub Requirements : Type 0
Requirements = List (String × Requirement)

unfoldable pub requirement : String → Requirements → Option Requirement
requirement step [] = none
requirement step ((name, r) ∷ rs) = if str_eq name step then some r else requirement step rs

-- `self._steps_requirements[step_name] = ...`, both entries at once.
unfoldable pub set_requirement : String → Requirement → Requirements → Requirements
set_requirement step r [] = (step, r) ∷ []
set_requirement step r ((name, q) ∷ rs) =
    if str_eq name step then (name, r) ∷ rs else (name, q) ∷ set_requirement step r rs

-- `filename.endswith(suffix)`
ends_with : String → String → Bool
ends_with String.[] suffix = str_eq String.[] suffix
ends_with (String.◌∷◌ c s) suffix =
    if str_eq (String.◌∷◌ c s) suffix then true else ends_with s suffix

-- A file that the walk over the steps directories meets: its name, the name of the step relative to
-- the project's steps directory, and its contents.
pub record StepFile : Type 0 where
  pub filename : String
  pub step_name : String
  pub contents : String

-- A step in `_steps_requirements`: unhashable values cannot be looked up.
unfoldable pub find_requirement : Requirements → Value → Outcome (Option Requirement)
unfolding requirement
find_requirement reqs (str step) = ok (requirement step reqs)
find_requirement reqs (list vs) = raised type_error
find_requirement reqs (dict fs) = raised type_error
find_requirement reqs null = ok none
find_requirement reqs (bool b) = ok none
find_requirement reqs (int n) = ok none

-- `max(values)`, after the first.
unfoldable pub max_from : ℤ → List ℤ → ℤ
max_from m [] = m
max_from m (n ∷ ns) = max_from (max_ℤ m n) ns

-- ValueError on an empty list.
unfoldable pub max_list : List ℤ → Outcome ℤ
unfolding max_from
max_list [] = raised (value_error (some "max() arg is an empty sequence"))
max_list (n ∷ ns) = ok (max_from n ns)

-- `sum(values)`, which adds from the left.
unfoldable pub sum_from : ℤ → List ℤ → ℤ
sum_from acc [] = acc
sum_from acc (n ∷ ns) = sum_from (acc +ℤ n) ns

unfoldable pub ints : List Value → Outcome (List ℤ)
ints [] = ok []
ints (v ∷ vs) = Exception.◌>>=◌ (as_int v) (λ n. Exception.◌>>=◌ (ints vs) (λ ns. ok (n ∷ ns)))

-- `self._steps_requirements[step][...] for step in steps`
unfoldable pub collect : (Requirement → Value) → List Requirement → List Value
collect dict_entry [] = []
collect dict_entry (r ∷ rs) = dict_entry r ∷ collect dict_entry rs

abbrev set_required_num_cores : ℤ → Row → Row
set_required_num_cores n r = record r { required_num_cores = n }

abbrev set_time_limit : ℤ → Row → Row
set_time_limit n r = record r { time_limit = n }

module _ (safe_load : String → Outcome Value) where
  -- One round of the innermost loop of `_get_steps_resource_requirements`.
  unfoldable pub scan_file : StepFile → Requirements → Outcome Requirements
  unfolding ends_with set_requirement
  scan_file f reqs =
      if ends_with f.filename ".cwl"
      then Exception.◌>>=◌ (get_required_num_cores safe_load (some f.contents)) (λ cores.
        Exception.◌>>=◌ (get_time_limit safe_load (some f.contents)) (λ limit.
          ok (set_requirement f.step_name (record { num_cores = cores; time_limit = limit }) reqs)))
      else ok reqs

  unfoldable pub get_steps_resource_requirements :
      List StepFile → Requirements → Outcome Requirements
  unfolding scan_file
  get_steps_resource_requirements [] reqs = ok reqs
  get_steps_resource_requirements (f ∷ fs) reqs =
      Exception.◌>>=◌ (scan_file f reqs) (get_steps_resource_requirements fs)

  module _ (as_column : Value → Outcome ℤ) (show : Value → String) (site : Site)
      (reqs : Requirements) where
    abbrev pub invalid_step : Value → String
    invalid_step step = "Found invalid step " ++ (show step ++ " in workflow")

    abbrev pub known : ℕ → Value → Option Requirement → M Requirement
    known id step (some r) = pure r
    known id step none = log site id level_error (invalid_step step ∷ []) >> raise invalid_job

    -- The loop that looks for a step that is not known, with what it finds of the others.
    unfoldable pub check_steps : ℕ → List Value → M (List Requirement)
    check_steps id [] = pure []
    check_steps id (step ∷ steps) = do
      found ← lift (find_requirement reqs step)
      r ← known id step found
      rs ← check_steps id steps
      pure (r ∷ rs)

    -- The number of cores: the workflow's own, unless a step asks for some.
    unfoldable pub plan_cores : ℕ → List Requirement → M Unit
    plan_cores id steps = do
      content ← read (λ r. r.workflow_content) id
      own ← lift (get_required_num_cores safe_load content)
      column ← lift (as_column own)
      write (set_required_num_cores column) id
      cores ← lift (ints (collect (λ r. r.num_cores) steps))
      most ← lift (max_list cores)
      if ltb_ℤ (pos 0) most then write (set_required_num_cores most) id else pure tt

    unfoldable pub plan_time : ℕ → List Requirement → M Unit
    plan_time id steps = do
      content ← read (λ r. r.workflow_content) id
      own ← lift (get_time_limit safe_load content)
      column ← lift (as_column own)
      write (set_time_limit column) id
      current ← read (λ r. r.time_limit) id
      limits ← lift (ints (collect (λ r. r.time_limit) steps))
      write (set_time_limit (max_ℤ current (sum_from (pos 0) limits))) id

    unfoldable pub plan_job : ℕ → M Unit
    unfolding check_steps plan_cores plan_time
    plan_job job_id = do
      id ← find_job job_id
      content ← read (λ r. r.workflow_content) id
      steps ← lift (get_workflow_step_names safe_load content)
      found ← check_steps id steps
      plan_cores id found
      plan_time id found
