-- ===== src/Cwltiny.antt =====
-- api/cerise/files/cwltiny.py: the program that runs a workflow on the compute resource. The
-- documents are Python values; a function that changes its argument returns it changed. No exception
-- is caught, and `sys.exit` is the exception `system_exit`, with the line that is logged last. Of a
-- file value that two dictionaries share, each has its own copy. Files are copied, tools are run and
-- outputs are moved by calls that are parameters here.
pub mod Normalise
pub mod Canonical
pub mod CommandLine
pub mod Output
pub mod Tool
pub mod Workflow
pub mod Run
pub mod Sorting
pub mod Progress
pub mod Ending
use simple_cwl_xenon_service.Prelude.{String, Bool, true, false, not, ◌||◌, if◌then◌else◌}
use simple_cwl_xenon_service.Exception.{Exn, Outcome, ok, raised, ◌>>=◌, system_exit}
use simple_cwl_xenon_service.Value.{Value, str, is_in, get_item, is_text}

abbrev pub exit_validation : {A : Type 0} → Outcome A
exit_validation = raised (system_exit "Tool definition failed validation")

abbrev pub exit_perm_fail : {A : Type 0} → Outcome A
exit_perm_fail = raised (system_exit "Final process status is permanentFail")

abbrev pub exit_system_error : {A : Type 0} → Outcome A
exit_system_error = raised (system_exit "Encountered a system error")

-- The two classes of processes.
pub data ProcessClass : Type 0 where
  workflow command_line_tool : ProcessClass

abbrev class_of : Value → Outcome ProcessClass
class_of v =
    if is_text "Workflow" v
    then ok workflow
    else if is_text "CommandLineTool" v
    then ok command_line_tool
    else exit_perm_fail

unfoldable pub process_type : Value → Outcome ProcessClass
unfolding is_in get_item
process_type process_dict = do
  has_class ← is_in "class" process_dict
  if not has_class then exit_perm_fail else do v ← get_item "class" process_dict; class_of v
