-- ===== src/Cwltiny/Workflow.antt =====
-- The execution of a workflow, step by step. Resolving the inputs of a step leaves alone what the
-- references of other steps read, so that one pass over the steps reads the workflow as it was when
-- the pass began.
use simple_cwl_xenon_service.Prelude.{
  String, Bool, true, false, not, ◌&&◌, Option, none, some, List, [], ◌∷◌, if◌then◌else◌,
}
use simple_cwl_xenon_service.Exception.{Outcome, ok, raised, ◌>>=◌, type_error, attribute_error}
use simple_cwl_xenon_service.Text.{split, ends_with}
use simple_cwl_xenon_service.Value.{
  Value, null, str, dict, list, no_entries, Items, is_in, get_item, set_item, is_text, iterate,
}
use simple_cwl_xenon_service.Cwltiny.{exit_perm_fail}

-- `[d for d in ... if d['id'] == reference]`
abbrev pub with_id : String → List Value → Outcome (List Value)
with_id reference [] = ok []
with_id reference (d ∷ ds) = do
  id ← get_item "id" d
  rest ← with_id reference ds
  ok (if is_text reference id then d ∷ rest else rest)

abbrev has_optional_type : Value → Outcome Bool
has_optional_type input_def = do
  has_type ← is_in "type" input_def
  if not has_type then ok false else do t ← get_item "type" input_def; ends_optional t
  where
    ends_optional : Value → Outcome Bool
    ends_optional (str s) = ok (ends_with s "?")
    ends_optional _ = raised attribute_error

-- An input of the workflow that was not given.
abbrev default_input : List Value → Outcome (Value × Bool)
default_input [] = exit_perm_fail
default_input (input_def ∷ _) = do
  has_default ← is_in "default" input_def
  if has_default then (do v ← get_item "default" input_def; ok (v, true)) else (do
    optional ← has_optional_type input_def
    if optional then ok (null, true) else exit_perm_fail)

abbrev workflow_input : String → Value → Value → Outcome (Value × Bool)
workflow_input reference workflow_dict input_dict = do
  given ← is_in reference input_dict
  if given then (do v ← get_item reference input_dict; ok (v, true)) else (do
    inputs ← get_item "inputs" workflow_dict
    defs ← iterate inputs
    found ← with_id reference defs
    default_input found)

-- The output of a step, `none` where it has no such output.
abbrev search_out : String → List Value → Outcome (Option (Value × Bool))
search_out output_id [] = ok none
search_out output_id (output ∷ outputs) = do
  id ← get_item "id" output
  if is_text output_id id
      then (do v ← get_item "cwltiny_value" output; ok (some (v, true)))
      else search_out output_id outputs

abbrev step_output : String → Value → Outcome (Option (Value × Bool))
step_output output_id step = do
  available ← is_in "cwltiny_output_available" step
  if not available then ok (some (null, false)) else do
    has_out ← is_in "out" step
    if not has_out
        then exit_perm_fail
        else do out ← get_item "out" step; outputs ← iterate out; search_out output_id outputs

abbrev is_step : String → Value → Outcome Bool
is_step step_id step = do
  has_step_id ← is_in "id" step
  if not has_step_id then ok false else do id ← get_item "id" step; ok (is_text step_id id)

-- The loop goes on where a step of that name does not have the output. Where it ends without a result,
-- the function returns `None`, which its callers cannot unpack.
abbrev or_else : Option (Value × Bool) → Outcome (Value × Bool) → Outcome (Value × Bool)
or_else none other = other
or_else (some found) other = ok found

abbrev search_steps : String → String → List Value → Outcome (Value × Bool)
search_steps step_id output_id [] = raised type_error
search_steps step_id output_id (step ∷ steps) = do
  let others = search_steps step_id output_id steps
  same ← is_step step_id step
  if same then (do found ← step_output output_id step; or_else found others) else others

abbrev resolve_parts : String → Value → Value → List String → Outcome (Value × Bool)
resolve_parts reference workflow_dict input_dict (_ ∷ []) =
    workflow_input reference workflow_dict input_dict
resolve_parts reference workflow_dict input_dict (step_id ∷ output_id ∷ []) = do
  steps ← get_item "steps" workflow_dict
  each ← iterate steps
  search_steps step_id output_id each
resolve_parts reference workflow_dict input_dict _ = exit_perm_fail

unfoldable pub resolve_output_reference : Value → Value → Value → Outcome (Value × Bool)
unfolding split ends_with is_in get_item
resolve_output_reference (str reference) workflow_dict input_dict =
    resolve_parts reference workflow_dict input_dict (split b'/' reference)
resolve_output_reference _ workflow_dict input_dict = raised attribute_error

-- `value, ready` of an input of a step.
abbrev step_input_value : Value → Value → Value → Outcome (Value × Bool)
step_input_value workflow_dict input_dict step_input = do
  has_default ← is_in "default" step_input
  default ← if has_default then get_item "default" step_input else ok null
  has_source ← is_in "source" step_input
  if has_source
      then (do
        source ← get_item "source" step_input
        resolve_output_reference source workflow_dict input_dict)
      else ok (default, has_default)

-- `d[key] = v`, where a list or a dictionary is no key; other keys than texts are left out.
abbrev set_key : Value → Value → Value → Outcome Value
set_key (str key) v d = set_item key v d
set_key _ v d = raised type_error

-- `step['cwltiny_input_values']` after the loop, and `all_bound`.
abbrev pub resolve_inputs : Value → Value → List Value → Value → Outcome (Value × Bool)
resolve_inputs workflow_dict input_dict [] values = ok (values, true)
resolve_inputs workflow_dict input_dict (step_input ∷ rest) values = do
  (value, ready) ← step_input_value workflow_dict input_dict step_input
  id ← get_item "id" step_input
  values' ← set_key id value values
  (values'', all_bound) ← resolve_inputs workflow_dict input_dict rest values'
  ok (values'', ready && all_bound)

unfoldable pub resolve_step_inputs : Value → Value → Value → Outcome (Value × Bool)
unfolding resolve_output_reference set_item is_in get_item
resolve_step_inputs workflow_dict input_dict step = do
  id ← get_item "id" step
  has_values ← is_in "cwltiny_input_values" step
  values ← if has_values then get_item "cwltiny_input_values" step else ok (dict no_entries)
  has_in ← is_in "in" step
  inputs ← if has_in then get_item "in" step else ok (list Items.no_items)
  each ← iterate inputs
  (values', all_bound) ← resolve_inputs workflow_dict input_dict each values
  step' ← set_item "cwltiny_input_values" values' step
  ok (step', all_bound)

unfoldable pub has_unexecuted_steps : List Value → Outcome Bool
unfolding is_in get_item
has_unexecuted_steps [] = ok false
has_unexecuted_steps (step ∷ steps) = do
  available ← is_in "cwltiny_output_available" step
  if available then has_unexecuted_steps steps else (do id ← get_item "id" step; ok true)

abbrev pub steps_of : Value → Outcome (List Value)
steps_of workflow_dict = get_item "steps" workflow_dict >>= iterate
