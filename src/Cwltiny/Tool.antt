-- ===== src/Cwltiny/Tool.antt =====
-- A command line tool from its description to its outputs. The copies of the input files and the
-- process that is run are outside.
use simple_cwl_xenon_service.Prelude.{String, Bool, not, List, ◌==◌}
use simple_cwl_xenon_service.Prelude.Int.{ℤ, pos, negsuc}
use simple_cwl_xenon_service.Exception.{Outcome, ok, ◌>>=◌}
use simple_cwl_xenon_service.Value.{Value, dict, get_item, get, iterate}
use simple_cwl_xenon_service.Cwltiny.Normalise.{normalise_process}
use simple_cwl_xenon_service.Cwltiny.CommandLine.{create_command_line}
use simple_cwl_xenon_service.Cwltiny.Output.{collect_output}

-- `in_out`
pub record Streams : Type 0 where
  pub stdin : Value
  pub stdout : Value
  pub stderr : Value

-- The resource that tools run on: Python's `str` and `int`, `glob.glob`, `stage_input`, which puts the
-- path of its copy into each file value, and `execute_clt` with the exit code of the process.
pub record Machine : Type 0 where
  pub show : Value → String
  pub to_int : Value → Outcome ℤ
  pub glob : String → List String
  pub stage_input : String → Value → Outcome Value
  pub execute_clt : String → Streams → Value → List Value → Outcome ℤ

abbrev is_zero : ℤ → Bool
is_zero (pos n) = n == 0
is_zero (negsuc n) = Bool.false

module _ (machine : Machine) where
  open machine use {show, to_int, glob, stage_input, execute_clt}

  unfoldable pub run_command_line_tool : String → Value → Value → Outcome (Bool × Value)
  unfolding normalise_process create_command_line collect_output get_item get
  run_command_line_tool workdir_path clt_dict input_dict = do
    clt ← normalise_process clt_dict
    staged ← stage_input workdir_path input_dict
    command_line ← create_command_line show to_int clt staged
    base_command ← get "baseCommand" clt
    stdin ← get "stdin" clt
    stdout ← get "stdout" clt
    stderr ← get "stderr" clt
    let in_out : Streams = record { stdin = stdin; stdout = stdout; stderr = stderr }
    result ← execute_clt workdir_path in_out base_command command_line
    outputs ← get_item "outputs" clt
    parameters ← iterate outputs
    output_dict ← collect_output glob workdir_path parameters
    ok (not (is_zero result), dict output_dict)
