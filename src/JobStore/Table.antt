-- ===== src/JobStore/Table.antt =====
-- The columns of the tables `jobs` and `job_log`. The column `state` holds the name of a member of
-- JobState; the row holds the member (JobState.Laws has the codec).
use simple_cwl_xenon_service.Prelude.{ℕ, String, Bool, false, Option, none}
use simple_cwl_xenon_service.Prelude.Int.{ℤ, pos}
use simple_cwl_xenon_service.JobState.{JobState, submitted}

pub record Row : Type 0 where
  pub job_id : ℕ
  pub name : String
  pub workflow : String
  pub local_input : String
  pub state : JobState
  pub please_delete : Bool
  pub resolve_retry_count : ℤ
  pub remote_output : String
  pub remote_error : String
  pub workflow_content : Option String
  pub required_num_cores : ℤ
  pub time_limit : ℤ
  pub remote_workdir_path : String
  pub remote_workflow_path : String
  pub remote_input_path : String
  pub remote_stdout_path : String
  pub remote_stderr_path : String
  pub remote_system_out_path : String
  pub remote_system_err_path : String
  pub remote_job_id : Option String
  pub local_output : String

pub record LogRow : Type 0 where
  pub job_id : ℕ
  pub level : ℕ
  pub time : ℕ
  pub message : String

-- The row that the INSERT of `create_job` adds, with the defaults of the table.
abbrev pub new_row : ℕ → String → String → String → Row
new_row id name workflow local_input = record {
  job_id = id;
  name = name;
  workflow = workflow;
  local_input = local_input;
  state = submitted;
  please_delete = false;
  resolve_retry_count = pos 0;
  remote_output = "";
  remote_error = "";
  workflow_content = none;
  required_num_cores = pos 0;
  time_limit = pos 0;
  remote_workdir_path = "";
  remote_workflow_path = "";
  remote_input_path = "";
  remote_stdout_path = "";
  remote_stderr_path = "";
  remote_system_out_path = "";
  remote_system_err_path = "";
  remote_job_id = none;
  local_output = "";
}
