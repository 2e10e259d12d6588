-- ===== src/Examples/Documents.antt =====
-- Documents, names and texts on which the theorems are applied.
use simple_cwl_xenon_service.Value.{list, no_items, item}
use simple_cwl_xenon_service.Prelude.{inl, inr, List}
use simple_cwl_xenon_service.Value.{Entries, nth, get}
use simple_cwl_xenon_service.Cwl.Bindings.{AllFiles, AnyFile, Describes, IsNamed}
use simple_cwl_xenon_service.Cwl.Files.{
  File, file, no_files, get_files_from_binding, secondary_fields,
}
use simple_cwl_xenon_service.Cwl.Named.{get_files_from_binding-Says}
use simple_cwl_xenon_service.Cwltiny.Normalise.{normalise_process, listed, normalise_parameter}
use simple_cwl_xenon_service.Cwltiny.Canonical.{normalise_process_twice}
use simple_cwl_xenon_service.RemoteJobFiles.Unique.{create_input_filename-injective}
use simple_cwl_xenon_service.RemoteJobFiles.Names.{sanitise}
use simple_cwl_xenon_service.Exception.{ok}
use simple_cwl_xenon_service.Value.{null, is_in}
use simple_cwl_xenon_service.Config.{Config}
use simple_cwl_xenon_service.Config.Places.{FileSystemArguments}
use Prim.Native.String.{count}
use simple_cwl_xenon_service.Prelude.{ℕ, ◌+◌, ◌≤◌, ◌≡◌, refl, String, none, some, [], ◌∷◌}
use simple_cwl_xenon_service.Prelude.Int.{pos}
use simple_cwl_xenon_service.FileSystem.{FilePath, at_root, local}
use simple_cwl_xenon_service.Text.{split, join, decimal, zfill2}
use simple_cwl_xenon_service.RemoteJobFiles.Names.{create_input_filename}
use simple_cwl_xenon_service.RemoteJobFiles.Bounds.{AllAllowed, create_input_filename-AllAllowed}
use simple_cwl_xenon_service.Value.{
  Value, str, dict, no_entries, dict_entry, lookup, get_item, set_item, set_entry,
}
use simple_cwl_xenon_service.RemoteApi.Translate.{translate_steps, translate_step, translate_run}
use simple_cwl_xenon_service.RemoteApi.Steps.{IsTranslated, translate_steps-IsTranslated}
use simple_cwl_xenon_service.Cwltiny.CommandLine.{Argument, flatten, create_command_line}
use simple_cwl_xenon_service.Cwltiny.Sorting.{IsGiven, IsArranged, create_command_line-IsArranged}
use simple_cwl_xenon_service.Value.{as_int, int}

create_input_filename-AllAllowed_example :
    AllAllowed (create_input_filename (zfill2 (decimal 3)) "http://localhost/input/a b.txt")
    × (count (create_input_filename (zfill2 (decimal 3)) "http://localhost/input/a b.txt")
        ≤ count (zfill2 (decimal 3)) + 40)
create_input_filename-AllAllowed_example =
    create_input_filename-AllAllowed 3 "http://localhost/input/a b.txt"

-- A parameter of a tool that becomes an argument at this position.
abbrev at_position : String → ℕ → Value
at_position id n = dict (
    dict_entry "id" (str id) (
      dict_entry "type" (str "string") (
        dict_entry "inputBinding" (dict (dict_entry "position" (int (pos n)) no_entries))
          no_entries)))

abbrev echo_tool : Value
echo_tool = dict (
    dict_entry "arguments" (list (item (str "-v") no_items)) (
      dict_entry "inputs" (list (item (at_position "a" 4) (item (at_position "b" 1) no_items)))
        no_entries))

abbrev echo_input : Value
echo_input = dict (dict_entry "a" (str "x") (dict_entry "b" (str "y") no_entries))

create_command_line-IsArranged_example :
    (given : List Argument) × (args : List Argument) × IsGiven
      (λ v. "1")
      as_int
      echo_tool
      echo_input
      given
    × IsArranged given args
    × ((str "-v" ∷ str "y" ∷ str "x" ∷ []) ≡ flatten args)
unfolding create_command_line
create_command_line-IsArranged_example =
    create_command_line-IsArranged (λ v. "1") as_int echo_tool echo_input
      (str "-v" ∷ str "y" ∷ str "x" ∷ []) refl

-- A workflow with one step.
abbrev api_step : String → Value
api_step run = dict (dict_entry "run" (str run) no_entries)

abbrev api_dir : FilePath
api_dir = at_root local

abbrev show : FilePath → String
show p = "/home/cerise/api/test/steps"

translate_steps-IsTranslated_example :
    (step' : Value) × (lookup "echo"
        (dict_entry "echo" (api_step "/home/cerise/api/test/steps/test/echo.cwl") no_entries)
      ≡ some step')
    × IsTranslated api_dir show (api_step "test/echo.cwl") step'
unfolding translate_steps translate_step translate_run split join get_item set_item set_entry lookup
translate_steps-IsTranslated_example =
    translate_steps-IsTranslated api_dir show "echo"
      (dict_entry "echo" (api_step "test/echo.cwl") no_entries)
      (dict_entry "echo" (api_step "/home/cerise/api/test/steps/test/echo.cwl") no_entries)
      (api_step "test/echo.cwl") refl refl

abbrev file_number : ℕ
file_number = 3

create_input_filename-injective_example : file_number ≡ file_number
unfolding create_input_filename sanitise
create_input_filename-injective_example =
    create_input_filename-injective file_number file_number "a b" "a/b" refl

-- A resource that names nothing, reached by the file system of the host itself.
abbrev no_resource : Config
no_resource = record {
  config = dict no_entries;
  api_config = dict no_entries;
  cr_config = dict no_entries;
}

abbrev local_files : FileSystemArguments
local_files = record { protocol = str "local"; location = null; credential = none }

-- A tool with one input, in both forms.
abbrev sugared : Value
sugared = dict (
    dict_entry "inputs" (dict (dict_entry "x" (str "File") no_entries))
      (dict_entry "outputs" (list no_items) no_entries))

abbrev canonical : Value
canonical = dict (
    dict_entry "inputs"
      (list (
        item (dict (dict_entry "type" (str "File") (dict_entry "id" (str "x") no_entries)))
          no_items))
      (dict_entry "outputs" (list no_items) no_entries))

normalise_process_twice_example : normalise_process canonical ≡ ok canonical
unfolding normalise_process listed normalise_parameter is_in get_item set_item set_entry lookup
normalise_process_twice_example = normalise_process_twice sugared canonical refl

abbrev file_entries : String → Entries
file_entries location =
    dict_entry "class" (str "File") (dict_entry "location" (str location) no_entries)

abbrev two_inputs : Entries
two_inputs = dict_entry "script" (dict (file_entries "http://a/run.py")) (
    dict_entry "data" (list (item null (item (dict (file_entries "http://a/1.txt")) no_items)))
      no_entries)

abbrev two_files : List File
two_files =
    file (some "script") none (str "http://a/run.py") none no_files
    ∷ file (some "data") (some 1) (str "http://a/1.txt") none no_files
    ∷ []

get_files_from_binding-Says_example :
    AllFiles (Describes two_inputs) two_files
    × AnyFile (IsNamed "data" (some 1) (str "http://a/1.txt")) two_files
unfolding get_files_from_binding nth lookup get get_item secondary_fields
get_files_from_binding-Says_example =
    get_files_from_binding-Says two_inputs two_files "data" (some 1) (str "http://a/1.txt") refl (
      list (item null (item (dict (file_entries "http://a/1.txt")) no_items)),
      inr (inl (refl, refl)),
      (file_entries "http://a/1.txt", refl, (refl, refl)),
    )
