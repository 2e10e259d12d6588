-- ===== src/Cwl.antt =====
-- cerise/back_end/cwl.py. `yaml.safe_load` after `decode()` is a parameter: it takes a file's
-- contents to a value or an exception. The contents are `none` before they are there.
pub mod Files
pub mod Bindings
pub mod Listed
pub mod Named
use simple_cwl_xenon_service.Prelude.{
  String, Bool, true, false, ◌||◌, not, Option, none, some, List, [], ◌∷◌, if◌then◌else◌,
}
use simple_cwl_xenon_service.Prelude.Int.{ℤ, pos}
use simple_cwl_xenon_service.Exception.{
  Outcome, ok, raised, ◌>>=◌, or_raise, attribute_error, scanner_error, parser_error, runtime_error,
  type_error, value_error,
}
use simple_cwl_xenon_service.JobState.{
  JobState, success, permanent_failure, temporary_failure, system_error,
}
use simple_cwl_xenon_service.Value.{
  Value, null, bool, int, str, list, dict, Items, no_items, item, Entries, no_entries, dict_entry,
  contains, is_text, is_in, get_item, get, is_none,
}

-- The tests of `is_workflow` on the loaded document.
unfoldable pub check_workflow : Value → Outcome Bool
check_workflow workflow = do
  has_class ← is_in "class" workflow
  if not has_class then ok false else do
    has_inputs ← is_in "inputs" workflow
    has_outputs ← if has_inputs then is_in "outputs" workflow else ok false
    if not has_outputs then ok false else do
      has_steps ← is_in "steps" workflow
      if not has_steps
          then ok false
          else do process_class ← get "class" workflow; ok (is_text "Workflow" process_class)

-- The handlers of ScannerError and ParserError.
abbrev pub load_or_false : Outcome Value → Outcome Bool
load_or_false (ok v) = check_workflow v
load_or_false (raised scanner_error) = ok false
load_or_false (raised parser_error) = ok false
load_or_false (raised e) = raised e

-- `list(workflow['steps'].values())`
values : Entries → List Value
values no_entries = []
values (dict_entry k v fs) = v ∷ values fs

items : Items → List Value
items no_items = []
items (item v vs) = v ∷ items vs

unfoldable pub step_list : Value → Outcome (List Value)
unfolding values items
step_list (dict fs) = ok (values fs)
step_list (list vs) = ok (items vs)
step_list _ = raised runtime_error

-- `[step['run'] for step in steps]`
unfoldable pub run_attributes : List Value → Outcome (List Value)
run_attributes [] = ok []
run_attributes (step ∷ steps) = do
  run ← get_item "run" step
  runs ← run_attributes steps
  ok (run ∷ runs)

unfoldable pub check_step_names : Value → Outcome (List Value)
unfolding step_list run_attributes
check_step_names workflow = do
  has_class ← is_in "class" workflow
  process_class ← if has_class then get_item "class" workflow else ok null
  if not (is_text "Workflow" process_class) then raised runtime_error else do
    has_steps ← is_in "steps" workflow
    if not has_steps
        then raised runtime_error
        else do entry ← get_item "steps" workflow; steps ← step_list entry; run_attributes steps

abbrev zero_value : Value
zero_value = int (pos 0)

abbrev first_given : Value → Value → Value
first_given cores_min cores_max =
    if not (is_none cores_min)
    then cores_min
    else if not (is_none cores_max)
    then cores_max
    else zero_value

unfoldable pub cores_of : Value → Outcome Value
cores_of workflow = do
  hints ← get "hints" workflow
  if is_none hints then ok zero_value else do
    resource_requirement ← get "ResourceRequirement" hints
    if is_none resource_requirement then ok zero_value else do
      cores_min ← get "coresMin" resource_requirement
      cores_max ← get "coresMax" resource_requirement
      ok (first_given cores_min cores_max)

-- The three cases on the type of the attribute TimeLimit; a bool is an int.
unfoldable pub limit_of : Value → Outcome Value
limit_of (int n) = ok (int n)
limit_of (bool b) = ok (bool b)
limit_of (dict fs) = do
  limit ← get "timeLimit" (dict fs)
  if is_none limit then raised (value_error (some "Invalid TimeLimit specification")) else ok limit
limit_of _ = raised (value_error (some "Invalid TimeLimit specification"))

unfoldable pub time_limit_of : Value → Outcome Value
unfolding limit_of
time_limit_of workflow = do
  hints ← get "hints" workflow
  if is_none hints then ok zero_value else do
    time_limit ← get "TimeLimit" hints
    if is_none time_limit then ok zero_value else limit_of time_limit

module _ (safe_load : String → Outcome Value) where
  -- `yaml.safe_load(content.decode())`
  abbrev load : Option String → Outcome Value
  load content = or_raise content attribute_error >>= safe_load

  unfoldable pub is_workflow : Option String → Outcome Bool
  unfolding check_workflow
  is_workflow content = load_or_false (load content)

  unfoldable pub get_workflow_step_names : Option String → Outcome (List Value)
  unfolding check_step_names
  get_workflow_step_names content = load content >>= check_step_names

  unfoldable pub get_required_num_cores : Option String → Outcome Value
  unfolding cores_of
  get_required_num_cores content = load content >>= cores_of

  unfoldable pub get_time_limit : Option String → Outcome Value
  unfolding time_limit_of
  get_time_limit content = load content >>= time_limit_of

unfoldable pub get_cwltool_result : String → JobState
get_cwltool_result cwltool_log =
    if contains "Tool definition failed validation:" cwltool_log
    then permanent_failure
    else if contains "Final process status is permanentFail" cwltool_log
    then permanent_failure
    else if contains "Final process status is temporaryFail" cwltool_log
    then temporary_failure
    else if contains "Final process status is success" cwltool_log
    then success
    else system_error
