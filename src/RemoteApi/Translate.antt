-- ===== src/RemoteApi/Translate.antt =====
-- What RemoteApi does to workflow and step documents: the locations on the compute resource take the
-- place of the names of steps and of macros.
use Prim.Native.String.{◌++◌}
use text.Mathlib.Text.{starts_with}
use simple_cwl_xenon_service.Prelude.{String, not, Option, none, some, List, [], ◌∷◌, if◌then◌else◌}
use simple_cwl_xenon_service.Exception.{Outcome, ok, raised, ◌>>=◌, runtime_error, attribute_error}
use simple_cwl_xenon_service.FileSystem.{FilePath, child}
use simple_cwl_xenon_service.Text.{split, join, lstrip, replace, replace_first, is_empty}
use simple_cwl_xenon_service.Value.{
  Value, str, list, dict, Entries, no_entries, dict_entry, Items, no_items, item, is_in, get_item,
  get, set_item, is_text,
}

-- `step_parts[0]` of `run.split('/')`, and `'/'.join(step_parts)`.
abbrev pub head_part : List String → String
head_part [] = ""
head_part (w ∷ ws) = w

module _ (remote_api_dir : FilePath) (show_path : FilePath → String) where
  unfoldable pub translate_run : String → String
  unfolding split join
  translate_run run =
      let step_parts = split b'/' run in
      show_path (child (child remote_api_dir (head_part step_parts)) "steps")
      ++ ("/" ++ join "/" step_parts)

  -- The new location of a step whose `run` is a text.
  abbrev pub translate_run_value : Value → Outcome Value
  translate_run_value (str run) = ok (str (translate_run run))
  translate_run_value _ = raised runtime_error

  unfoldable pub translate_step : Value → Outcome Value
  unfolding translate_run
  translate_step step = do
    run ← get_item "run" step
    run' ← translate_run_value run
    set_item "run" run' step

  unfoldable pub translate_steps : Entries → Outcome Entries
  unfolding translate_step
  translate_steps no_entries = ok no_entries
  translate_steps (dict_entry name step steps) = do
    step' ← translate_step step
    steps' ← translate_steps steps
    ok (dict_entry name step' steps')

  -- `workflow['steps'].items()`
  abbrev pub step_entries : Value → Outcome Entries
  step_entries (dict steps) = ok steps
  step_entries _ = raised attribute_error

  unfoldable pub translate_document : Value → Outcome Value
  unfolding translate_steps
  translate_document workflow = do
    has_steps ← is_in "steps" workflow
    if not has_steps then raised runtime_error else do
      entry ← get_item "steps" workflow
      steps ← step_entries entry
      steps' ← translate_steps steps
      set_item "steps" (dict steps') workflow

  unfoldable pub translate_runner_location : Option String → String → String
  unfolding replace
  translate_runner_location username runner_location =
      let actual_location = replace "$CERISE_API" (show_path remote_api_dir) runner_location in
      elim username [
        | none ↦ actual_location
        | some name ↦
            if is_empty name
            then actual_location
            else replace "$CERISE_USERNAME" name actual_location
      ]

-- The macro in the base command and in the arguments of a step.
abbrev macro : String
macro = "$CERISE_PROJECT_FILES"

unfoldable pub translate_base_command : String → Value → Outcome Value
unfolding lstrip replace_first
translate_base_command files_dir (str command) = ok (
    str (
      if starts_with (lstrip command) macro
      then replace_first macro files_dir command
      else command))
translate_base_command files_dir _ = raised attribute_error

unfoldable pub translate_arguments : String → Items → Outcome Items
unfolding replace
translate_arguments files_dir no_items = ok no_items
translate_arguments files_dir (item (str argument) rest) = do
  rest' ← translate_arguments files_dir rest
  ok (item (str (replace macro files_dir argument)) rest')
translate_arguments files_dir (item _ rest) = raised attribute_error

abbrev argument_items : Value → Outcome Items
argument_items (list vs) = ok vs
argument_items _ = raised runtime_error

unfoldable pub translate_api_step : String → Value → Outcome Value
unfolding translate_base_command translate_arguments
translate_api_step files_dir cwlfile = do
  process_class ← get "class" cwlfile
  if not (is_text "CommandLineTool" process_class) then ok cwlfile else do
    has_command ← is_in "baseCommand" cwlfile
    with_command ←
        if has_command
        then (do
          command ← get_item "baseCommand" cwlfile
          command' ← translate_base_command files_dir command
          set_item "baseCommand" command' cwlfile)
        else ok cwlfile
    has_arguments ← is_in "arguments" with_command
    if has_arguments
        then (do
          entry ← get_item "arguments" with_command
          arguments ← argument_items entry
          arguments' ← translate_arguments files_dir arguments
          set_item "arguments" (list arguments') with_command)
        else ok with_command
