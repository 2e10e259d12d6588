-- ===== src/Cwltiny/Normalise.antt =====
-- The documents without syntactic sugar.
use simple_cwl_xenon_service.Prelude.{String, Bool, true, false, not, if◌then◌else◌, List, [], ◌∷◌}
use simple_cwl_xenon_service.Exception.{Outcome, ok, ◌>>=◌}
use simple_cwl_xenon_service.Value.{
  Value, str, dict, list, Entries, no_entries, dict_entry, Items, no_items, item, set_entry, is_in,
  get_item, set_item, iterate,
}
use simple_cwl_xenon_service.Cwltiny.{exit_validation, exit_perm_fail}

-- The parameter with its key under `id`.
abbrev parameter : String → Value → Value
parameter key (dict fs) = dict (set_entry "id" (str key) fs)
parameter key v = dict (dict_entry "type" v (dict_entry "id" (str key) no_entries))

unfoldable pub normalise_parameter : Entries → Items
unfolding set_entry
normalise_parameter no_entries = no_items
normalise_parameter (dict_entry key v rest) = item (parameter key v) (normalise_parameter rest)

-- A dictionary of parameters becomes a list, and anything else stays.
unfoldable pub listed : Value → Value
unfolding normalise_parameter
listed (dict fs) = list (normalise_parameter fs)
listed v = v

unfoldable pub normalise_process : Value → Outcome Value
unfolding listed set_item get_item is_in
normalise_process process_desc = do
  has_inputs ← is_in "inputs" process_desc
  if not has_inputs then exit_validation else do
    inputs ← get_item "inputs" process_desc
    with_inputs ← set_item "inputs" (listed inputs) process_desc
    has_outputs ← is_in "outputs" with_inputs
    if not has_outputs then exit_validation else do
      outputs ← get_item "outputs" with_inputs
      set_item "outputs" (listed outputs) with_inputs

-- `new_steps`, where each step gets its key under `id`.
unfoldable pub list_steps : Entries → Outcome Items
unfolding set_item
list_steps no_entries = ok no_items
list_steps (dict_entry step_id step rest) = do
  step' ← set_item "id" (str step_id) step
  rest' ← list_steps rest
  ok (item step' rest')

-- `new_in`: an input of another kind than a text or a dictionary is dropped.
unfoldable pub list_in : Entries → Items
unfolding set_entry
list_in no_entries = no_items
list_in (dict_entry key (str source) rest) =
    item (dict (dict_entry "id" (str key) (dict_entry "source" (str source) no_entries)))
      (list_in rest)
list_in (dict_entry key (dict fs) rest) = item (dict (set_entry "id" (str key) fs)) (list_in rest)
list_in (dict_entry key _ rest) = list_in rest

abbrev listed_in : Value → Value
listed_in (dict fs) = list (list_in fs)
listed_in v = v

-- The outputs of a step, each with an `id`.
abbrev pub list_out : Items → Items
list_out no_items = no_items
list_out (item (str output) rest) =
    item (dict (dict_entry "id" (str output) no_entries)) (list_out rest)
list_out (item v rest) = item v (list_out rest)

abbrev listed_out : Value → Outcome Value
listed_out (list outputs) = ok (list (list_out outputs))
listed_out _ = exit_perm_fail

abbrev update_if : Bool → String → (Value → Outcome Value) → Value → Outcome Value
update_if false key f step = ok step
update_if true key f step = do v ← get_item key step; v' ← f v; set_item key v' step

unfoldable pub normalise_step : Value → Outcome Value
unfolding list_in is_in get_item set_item
normalise_step step = do
  has_in ← is_in "in" step
  with_in ← update_if has_in "in" (λ v. ok (listed_in v)) step
  has_out ← is_in "out" with_in
  update_if has_out "out" listed_out with_in

unfoldable pub normalise_steps : List Value → Outcome Items
unfolding normalise_step
normalise_steps [] = ok no_items
normalise_steps (step ∷ steps) = do
  step' ← normalise_step step
  steps' ← normalise_steps steps
  ok (item step' steps')

abbrev listed_steps : Value → Outcome Value
listed_steps (dict fs) = list_steps fs >>= λ steps. ok (list steps)
listed_steps v = ok v

-- The steps were changed in place, if they are a list.
abbrev put_back : Value → Items → Value
put_back (list _) steps = list steps
put_back v steps = v

unfoldable pub normalise_workflow : Value → Outcome Value
unfolding normalise_process list_steps normalise_steps is_in get_item set_item
normalise_workflow workflow_dict = do
  workflow ← normalise_process workflow_dict
  has_steps ← is_in "steps" workflow
  if not has_steps then exit_perm_fail else do
    entry ← get_item "steps" workflow
    steps ← listed_steps entry
    each ← iterate steps
    steps' ← normalise_steps each
    set_item "steps" (put_back steps steps') workflow
