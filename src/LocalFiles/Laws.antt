-- ===== src/LocalFiles/Laws.antt =====
-- LocalFiles moves no job, and leaves the variable `previous_state` of `_process_jobs` alone.
use simple_cwl_xenon_service.Prelude.{ℕ, String, List, [], ◌∷◌, refl}
use simple_cwl_xenon_service.Value.{Value}
use simple_cwl_xenon_service.Cwl.Files.{File}
use simple_cwl_xenon_service.World.{Site}
use simple_cwl_xenon_service.World.Quiet.{Quiet, Ordinary, quiet_rules}
use simple_cwl_xenon_service.World.Frame.{Framed, frame_rules}
use simple_cwl_xenon_service.LocalFiles.Source.{Exchange, set_workflow_content, set_local_output}
use simple_cwl_xenon_service.LocalFiles.{
  resolve_input, create_output_dir, delete_output_dir, publish_files, publish_job_output,
}

set_workflow_content-Ordinary : (content : String) → Ordinary (set_workflow_content content)
set_workflow_content-Ordinary content = record {
  keeps_id = λ r. refl;
  keeps_state = λ r. refl;
  keeps_request = λ r. refl;
}

set_local_output-Ordinary : (output : String) → Ordinary (set_local_output output)
set_local_output-Ordinary output = record {
  keeps_id = λ r. refl;
  keeps_state = λ r. refl;
  keeps_request = λ r. refl;
}

module _ (site : Site) (e : Exchange) where
  pub resolve_input-Quiet : (id : ℕ) → Quiet (resolve_input site e id)
  unfolding resolve_input
  resolve_input-Quiet id = search (quiet_rules, set_workflow_content-Ordinary) depth 30

  create_output_dir-Quiet : (id : ℕ) → Quiet (create_output_dir site e id)
  unfolding create_output_dir
  create_output_dir-Quiet id = search quiet_rules

  pub delete_output_dir-Quiet : (id : ℕ) → Quiet (delete_output_dir site e id)
  unfolding delete_output_dir
  delete_output_dir-Quiet id = search quiet_rules depth 8

  pub delete_output_dir-Framed : (id : ℕ) → Framed (delete_output_dir site e id)
  unfolding delete_output_dir
  delete_output_dir-Framed id = search frame_rules depth 8

  publish_files-Quiet :
      (id : ℕ) (files : List File) (output : Value) → Quiet (publish_files site e id files output)
  unfolding publish_files
  publish_files-Quiet id [] output = search quiet_rules
  publish_files-Quiet id (f ∷ fs) output =
      let rest = publish_files-Quiet id fs in search (quiet_rules, rest) depth 20

  pub publish_job_output-Quiet :
      (id : ℕ) (files : List File) → Quiet (publish_job_output site e id files)
  unfolding publish_job_output
  publish_job_output-Quiet id [] = search quiet_rules depth 8
  publish_job_output-Quiet id (f ∷ fs) =
      search (quiet_rules, publish_files-Quiet, set_local_output-Ordinary) depth 20
