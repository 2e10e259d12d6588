-- ===== src/Cwltiny/Run.antt =====
-- The loop that runs the steps of a workflow.
use simple_cwl_xenon_service.Prelude.{
  ℕ, zero, suc, String, Bool, true, false, not, ◌&&◌, ◌||◌, Option, none, some, List, [], ◌∷◌,
  if◌then◌else◌,
}
use simple_cwl_xenon_service.Exception.{Outcome, ok, raised, ◌>>=◌, type_error, unbound_local_error}
use simple_cwl_xenon_service.Value.{
  Value, null, bool, str, dict, list, Entries, no_entries, Items, no_items, item, is_in, get_item,
  get, set_item, truth, iterate, list_of, set_entry,
}
use simple_cwl_xenon_service.Cwltiny.{ProcessClass, workflow, command_line_tool, process_type}
use simple_cwl_xenon_service.Cwltiny.Normalise.{normalise_workflow}
use simple_cwl_xenon_service.Cwltiny.Workflow.{
  resolve_output_reference, resolve_step_inputs, has_unexecuted_steps, steps_of,
}

-- `output_dict.get(id)`
abbrev get_key : Value → Value → Outcome Value
get_key (str key) d = get key d
get_key (list vs) d = raised type_error
get_key (dict fs) d = raised type_error
get_key _ d = ok null

-- The outputs of a step with the values that its run gave.
abbrev pub fill_out : Value → List Value → Outcome Items
fill_out output_dict [] = ok no_items
fill_out output_dict (output ∷ outputs) = do
  id ← get_item "id" output
  v ← get_key id output_dict
  output' ← set_item "cwltiny_value" v output
  outputs' ← fill_out output_dict outputs
  ok (item output' outputs')

abbrev pub with_outputs : Value → Value → Outcome Value
with_outputs output_dict step = do
  has_out ← is_in "out" step
  if not has_out then ok step else do
    out ← get_item "out" step
    outputs ← iterate out
    filled ← fill_out output_dict outputs
    set_item "out" (list filled) step

-- `if step_error: has_error = True`
abbrev pub with_error : Bool → Option Bool → Bool
with_error has_error none = has_error
with_error has_error (some step_error) = has_error || step_error

abbrev as_key : Value → Outcome String
as_key (str s) = ok s
as_key _ = raised type_error

-- The condition of the loop.
abbrev pub goes_on : Bool → Value → Outcome Bool
goes_on has_error workflow_dict = do
  steps ← steps_of workflow_dict
  unexecuted ← has_unexecuted_steps steps
  ok (unexecuted && not has_error)

abbrev collect_outputs : Value → Value → List Value → Entries → Outcome Entries
collect_outputs workflow_dict input_dict [] output_dict = ok output_dict
collect_outputs workflow_dict input_dict (parameter ∷ parameters) output_dict = do
  has_source ← is_in "outputSource" parameter
  if not has_source then collect_outputs workflow_dict input_dict parameters output_dict else do
    source ← get_item "outputSource" parameter
    (value, found) ← resolve_output_reference source workflow_dict input_dict
    if not found then collect_outputs workflow_dict input_dict parameters output_dict else do
      id ← get_item "id" parameter
      key ← as_key id
      collect_outputs workflow_dict input_dict parameters (set_entry key value output_dict)

unfoldable pub get_workflow_outputs : Value → Value → Outcome Value
unfolding resolve_output_reference set_entry is_in get_item
get_workflow_outputs workflow_dict input_dict = do
  outputs ← get_item "outputs" workflow_dict
  parameters ← iterate outputs
  output_dict ← collect_outputs workflow_dict input_dict parameters no_entries
  ok (dict output_dict)

abbrev ended : Value → Option (Bool × Value) → Outcome (Option (Bool × Value))
ended input_dict none = ok none
ended input_dict (some (has_error, workflow_dict)) = do
  output_dict ← get_workflow_outputs workflow_dict input_dict
  ok (some (has_error, output_dict))

-- `load` reads the JSON document in a file, `run_nested` is `run_workflow` for the process of a step,
-- and `run_tool` is `run_command_line_tool`.
module _ (load : Value → Outcome Value)
    (run_nested run_tool : Value → Value → Outcome (Bool × Value)) where
  abbrev pub run_process : ProcessClass → Value → Value → Outcome (Bool × Value)
  run_process workflow run_dict input_dict = run_nested run_dict input_dict
  run_process command_line_tool run_dict input_dict = run_tool run_dict input_dict

  -- Without `run` the local variable `has_error` has no value when it is returned.
  unfoldable pub execute_workflow_step : Value → Outcome (Bool × Value)
  unfolding process_type is_in get_item set_item get
  execute_workflow_step step = do
    has_run ← is_in "run" step
    if not has_run then raised unbound_local_error else do
      id ← get_item "id" step
      run ← get_item "run" step
      run_dict ← load run
      input_dict ← get_item "cwltiny_input_values" step
      class ← process_type run_dict
      (has_error, output_dict) ← run_process class run_dict input_dict
      filled ← with_outputs output_dict step
      step' ← set_item "cwltiny_output_available" (bool true) filled
      ok (has_error, step')

  -- `for step in workflow_dict['steps']` of one round: whether a step was executed and had an error,
  -- and the steps.
  unfoldable pub run_steps : Value → Value → List Value → Outcome (Option Bool × List Value)
  unfolding execute_workflow_step resolve_step_inputs get
  run_steps workflow_dict input_dict [] = ok (none, [])
  run_steps workflow_dict input_dict (step ∷ steps) = do
    let others = run_steps workflow_dict input_dict steps
    available ← get "cwltiny_output_available" step
    if truth available then (do (ran, steps') ← others; ok (ran, step ∷ steps')) else (do
      (step', all_bound) ← resolve_step_inputs workflow_dict input_dict step
      if all_bound
          then (do
            (step_error, step'') ← execute_workflow_step step'
            ok (some step_error, step'' ∷ steps))
          else (do (ran, steps') ← others; ok (ran, step' ∷ steps')))

  -- One round of the loop, and the workflow after it.
  unfoldable pub run_round : Value → Value → Outcome (Option Bool × Value)
  unfolding run_steps set_item get_item
  run_round input_dict workflow_dict = do
    steps ← steps_of workflow_dict
    (ran, steps') ← run_steps workflow_dict input_dict steps
    workflow' ← set_item "steps" (list (list_of steps')) workflow_dict
    ok (ran, workflow')

  -- `none` where the fuel, the number of rounds, runs out.
  unfoldable pub run_loop : ℕ → Value → Bool → Value → Outcome (Option (Bool × Value))
  unfolding run_round has_unexecuted_steps get_item
  run_loop zero input_dict has_error workflow_dict = do
    more ← goes_on has_error workflow_dict
    ok (if more then none else some (has_error, workflow_dict))
  run_loop (suc fuel) input_dict has_error workflow_dict = do
    more ← goes_on has_error workflow_dict
    if more
        then (do
          (ran, workflow') ← run_round input_dict workflow_dict
          run_loop fuel input_dict (with_error has_error ran) workflow')
        else ok (some (has_error, workflow_dict))

  unfoldable pub run_workflow : ℕ → Value → Value → Outcome (Option (Bool × Value))
  unfolding normalise_workflow run_loop get_workflow_outputs
  run_workflow fuel workflow_dict input_dict = do
    normalised ← normalise_workflow workflow_dict
    result ← run_loop fuel input_dict false normalised
    ended input_dict result
