-- ===== src/Cwltiny/Output.antt =====
-- The output files that a tool leaves.
use Prim.Native.String.{◌++◌}
use text.Mathlib.Text.{◌==◌ as str_eq, starts_with}
use simple_cwl_xenon_service.Prelude.{String, not, ◌||◌, List, [], ◌∷◌, if◌then◌else◌}
use simple_cwl_xenon_service.Exception.{Outcome, ok, raised, ◌>>=◌, type_error}
use simple_cwl_xenon_service.Text.{ends_with}
use simple_cwl_xenon_service.Value.{
  Value, str, dict, Entries, no_entries, dict_entry, is_in, get_item, is_text, set_entry,
}
use simple_cwl_xenon_service.Cwltiny.{exit_validation, exit_system_error}

-- A path, and a key of a dictionary of outputs. Only texts are keys here.
abbrev as_path : Value → Outcome String
as_path (str s) = ok s
as_path _ = raised type_error

abbrev as_key : Value → Outcome String
as_key (str s) = ok s
as_key _ = raised type_error

-- `os.path.join(directory, name)`
abbrev pub join_path : String → String → String
join_path directory name =
    if starts_with name "/"
    then name
    else if str_eq directory "" || ends_with directory "/"
    then directory ++ name
    else directory ++ ("/" ++ name)

abbrev pub output_file : String → Value
output_file path =
    dict (
      dict_entry "class" (str "File") (dict_entry "location" (str ("file:///" ++ path)) no_entries))

-- `output_dict[...] = ...`, if there is a path.
abbrev pub with_output : Value → List String → Entries → Outcome Entries
with_output id [] output_dict = ok output_dict
with_output id (path ∷ paths) output_dict = do
  key ← as_key id
  ok (set_entry key (output_file path) output_dict)

module _ (glob : String → List String) (workdir_path : String) where
  abbrev globbed : Value → Outcome (List String)
  globbed binding = do
    has_glob ← is_in "glob" binding
    if not has_glob then ok [] else do
      v ← get_item "glob" binding
      pattern ← as_path v
      ok (glob (join_path workdir_path pattern))

  abbrev pub collect_parameter : Value → Entries → Outcome Entries
  collect_parameter output_parameter output_dict = do
    has_id ← is_in "id" output_parameter
    if not has_id then exit_validation else do
      has_type ← is_in "type" output_parameter
      if not has_type then exit_validation else do
        par_type ← get_item "type" output_parameter
        if not (is_text "File" par_type) then exit_system_error else do
          is_bound ← is_in "outputBinding" output_parameter
          if not is_bound then ok output_dict else do
            binding ← get_item "outputBinding" output_parameter
            paths ← globbed binding
            id ← get_item "id" output_parameter
            with_output id paths output_dict

  unfoldable pub collect_output_from : List Value → Entries → Outcome Entries
  unfolding is_in get_item set_entry ends_with
  collect_output_from [] output_dict = ok output_dict
  collect_output_from (output_parameter ∷ outputs) output_dict = do
    output_dict' ← collect_parameter output_parameter output_dict
    collect_output_from outputs output_dict'

  unfoldable pub collect_output : List Value → Outcome Entries
  unfolding collect_output_from
  collect_output outputs = collect_output_from outputs no_entries
