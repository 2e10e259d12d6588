-- ===== src/Examples/Parts.antt =====
-- The execution manager with its own parts, on files that are all empty.
use simple_cwl_xenon_service.Prelude.{refl, none, []}
use simple_cwl_xenon_service.Prelude.Int.{pos}
use simple_cwl_xenon_service.Exception.{ok}
use simple_cwl_xenon_service.FileSystem.{at_root, local}
use simple_cwl_xenon_service.JobState.{staging_in, finished}
use simple_cwl_xenon_service.Value.{dict, no_entries}
use simple_cwl_xenon_service.World.At.{InState, At}
use simple_cwl_xenon_service.World.Triple.{Post}
use simple_cwl_xenon_service.LocalFiles.Source.{Exchange}
use simple_cwl_xenon_service.RemoteJobFiles.{Remote}
use simple_cwl_xenon_service.RemoteApi.{Api}
use simple_cwl_xenon_service.RemoteApi.Projects.{Retry}
use simple_cwl_xenon_service.ExecutionManager.{stage_and_start_job, destage_job}
use simple_cwl_xenon_service.ExecutionManager.Process.{recover_job}
use simple_cwl_xenon_service.ExecutionManager.Staging.{staging, started}
use simple_cwl_xenon_service.ExecutionManager.Concluding.{destaging, destaged}
use simple_cwl_xenon_service.ExecutionManager.Recovery.{anywhere, recovered}
use simple_cwl_xenon_service.ExecutionManager.Parts.{
  Parts, backend, stage_with_parts-Started, destage_with_parts-Destaged,
  recover_with_parts-Recovered,
}
use simple_cwl_xenon_service.Examples.{
  site, runner, job, world, world-At, staging-staging_in, finishing-finished,
}

abbrev pub exchange : Exchange
exchange = record {
  basedir = at_root local;
  baseurl = none;
  urlparse = λ url. record { scheme = "file"; path = url };
  loads = λ text. ok (dict no_entries);
  dumps = λ v. "{}";
  hex = λ n. "7";
  show_path = λ p. "/home/cerise";
}

abbrev pub remote : Remote
remote = record {
  basedir = at_root local;
  loads = λ text. ok (dict no_entries);
  dumps = λ v. "{}";
  hex = λ n. "7";
  show_path = λ p. "/home/cerise";
}

abbrev pub api : Api
api = record {
  local_api_dir = at_root local;
  remote_api_dir = at_root local;
  username = none;
  safe_load = λ text. ok (dict no_entries);
  dumps = λ v. "{}";
  show_path = λ p. "/home/cerise";
}

abbrev pub retry : Retry
retry = record { done = λ m. m; told = λ m. m }

abbrev pub parts : Parts
parts = record {
  site = site;
  runner = runner;
  exchange = exchange;
  remote = remote;
  api = api;
  safe_load = λ text. ok (dict no_entries);
  as_column = λ v. ok (pos 0);
  show = λ v. "step";
  requirements = [];
  retry = retry;
  looks = 3;
}

stage_with_parts-Started_example :
    Post
      (λ _. At 7 (InState started))
      (λ _. At 7 (InState staging))
      (stage_and_start_job (backend parts) 7 (world staging_in))
stage_with_parts-Started_example =
    stage_with_parts-Started 7 parts (world staging_in)
      (world-At staging staging_in staging-staging_in)

destage_with_parts-Destaged_example :
    Post
      (λ _. At 7 (InState (destaged "")))
      (λ _. At 7 (InState destaging))
      (destage_job (backend parts) 7 (world finished))
destage_with_parts-Destaged_example =
    destage_with_parts-Destaged 7 parts "" (world finished)
      (record { row = (job finished, refl, (finishing-finished, refl)); apart = (tt, (tt, tt)) })

recover_with_parts-Recovered_example :
    Post
      (λ _. At 7 (InState recovered))
      (λ _. At 7 (InState anywhere))
      (recover_job (backend parts) 7 (world staging_in))
recover_with_parts-Recovered_example =
    recover_with_parts-Recovered 7 parts (world staging_in) (world-At anywhere staging_in refl)
