-- ===== src/Examples/Planning.antt =====
-- A workflow of two steps that is planned while the front end cancels the job.
use simple_cwl_xenon_service.Prelude.{refl, Option, some, String, [], ◌∷◌}
use simple_cwl_xenon_service.Prelude.Int.{pos}
use simple_cwl_xenon_service.Exception.{Outcome, ok}
use simple_cwl_xenon_service.Value.{
  Value, int, str, dict, Entries, no_entries, dict_entry, as_int, is_in, get, get_item, lookup,
}
use simple_cwl_xenon_service.Cwl.{get_workflow_step_names, get_required_num_cores, get_time_limit}
use simple_cwl_xenon_service.JobState.{staging_in}
use simple_cwl_xenon_service.JobStore.Table.{Row}
use simple_cwl_xenon_service.World.{World}
use simple_cwl_xenon_service.World.At.{At}
use simple_cwl_xenon_service.World.Triple.{Post}
use simple_cwl_xenon_service.JobPlanner.{Requirements, find_requirement}
use simple_cwl_xenon_service.JobPlanner.Plan.{Plannable}
use simple_cwl_xenon_service.Prelude.{inl, inr, arith}
use simple_cwl_xenon_service.Prelude.Int.{◌+ℤ◌}
use simple_cwl_xenon_service.JobPlanner.{sum_from}
use simple_cwl_xenon_service.JobRunner.{start_job}
use simple_cwl_xenon_service.JobRunner.Reserving.{Suits, IsSubmitted, start_job-Suits}
use simple_cwl_xenon_service.Examples.{runner, site, job, world}

abbrev step : String → Entries
step run = dict_entry "run" (str run) no_entries

abbrev steps : Entries
steps = dict_entry "a" (dict (step "test/a.cwl")) (dict_entry "b" (dict (step "b.cwl")) no_entries)

abbrev hints : Entries
hints =
    dict_entry "ResourceRequirement" (dict (dict_entry "coresMin" (int (pos 1)) no_entries))
      (dict_entry "TimeLimit" (int (pos 60)) no_entries)

abbrev workflow : Value
workflow = dict (
    dict_entry "class" (str "Workflow")
      (dict_entry "steps" (dict steps) (dict_entry "hints" (dict hints) no_entries)))

abbrev parse_yaml : String → Outcome Value
parse_yaml text = ok workflow

abbrev requirements : Requirements
requirements =
    ("test/a.cwl", record { num_cores = int (pos 4); time_limit = int (pos 100) })
    ∷ ("b.cwl", record { num_cores = int (pos 2); time_limit = int (pos 50) })
    ∷ []

abbrev content : Option String
content = some "cwlVersion: v1.0"

abbrev planned_row : Row
planned_row = record (job staging_in) { workflow_content = content }

abbrev planned_world : World
planned_world = record (world staging_in) {
  store = record { jobs = planned_row ∷ []; job_log = [] };
}

abbrev two_steps : Plannable parse_yaml as_int requirements content
unfolding get_workflow_step_names get_required_num_cores get_time_limit find_requirement is_in get
    get_item lookup
two_steps = record {
  first = str "test/a.cwl";
  steps = str "b.cwl" ∷ [];
  found =
      record { num_cores = int (pos 4); time_limit = int (pos 100) }
      ∷ record { num_cores = int (pos 2); time_limit = int (pos 50) }
      ∷ [];
  own_cores = int (pos 1);
  own_limit = int (pos 60);
  own_cores_number = pos 1;
  own_limit_number = pos 60;
  cores = pos 4 ∷ pos 2 ∷ [];
  limits = pos 100 ∷ pos 50 ∷ [];
  are_listed = refl;
  are_known = (refl, (refl, tt));
  asks_cores = refl;
  asks_limit = refl;
  is_cores = refl;
  is_limit = refl;
  have_cores = (refl, (refl, tt));
  have_limits = (refl, (refl, tt));
}

abbrev reserved_row : Row
reserved_row = record planned_row { required_num_cores = pos 4; time_limit = pos 150 }

abbrev reserved_world : World
reserved_world = record (world staging_in) {
  store = record { jobs = reserved_row ∷ []; job_log = [] };
}

start_job-Suits_example :
    Post
      (λ _. IsSubmitted (Suits (pos 60) (pos 4 ∷ pos 2 ∷ []) (pos 100 ∷ pos 50 ∷ []) 16))
      (λ _. IsSubmitted (Suits (pos 60) (pos 4 ∷ pos 2 ∷ []) (pos 100 ∷ pos 50 ∷ []) 16))
      (start_job site runner 7 reserved_world)
unfolding sum_from ◌+ℤ◌
start_job-Suits_example =
    start_job-Suits site runner 7 content (pos 1) (pos 60) (pos 4 ∷ pos 2 ∷ [])
      (pos 100 ∷ pos 50 ∷ []) (omega arith) reserved_world
      (record {
        row = (
          reserved_row,
          refl,
          (
            refl,
            (
              inl (refl, inl refl, (omega arith, (omega arith, tt))),
              (omega arith, omega arith, inr refl),
            ),
          ),
        );
        apart = (tt, (tt, tt));
      })
