-- ===== src/Examples/Answering.antt =====
-- The service's own parts, where the file systems answer and each job has one output file.
use simple_cwl_xenon_service.Prelude.{
  ◌≡◌, refl, true, false, none, some, List, [], ◌∷◌, Bool, if◌then◌else◌,
}
use text.Mathlib.Text.{◌==◌ as str_eq}
use simple_cwl_xenon_service.Exception.{ok}
use simple_cwl_xenon_service.FileSystem.{child}
use simple_cwl_xenon_service.JobState.{running}
use simple_cwl_xenon_service.Text.{drop}
use simple_cwl_xenon_service.Value.{
  Value, str, dict, no_entries, dict_entry, get, get_item, lookup, set_item, set_entry,
}
use simple_cwl_xenon_service.Cwl.Files.{
  File, file, no_files, get_files_from_binding, secondary_fields,
}
use simple_cwl_xenon_service.World.{ask}
use simple_cwl_xenon_service.World.Triple.{
  Triple, Post, Never, Triple-pure, Triple-bind, Triple-write, Triple-if,
}
use simple_cwl_xenon_service.World.Known.{Triple-find_known}
use simple_cwl_xenon_service.LocalFiles.{
  publish_job_output, publish_files, create_output_dir, delete_output_dir,
}
use simple_cwl_xenon_service.LocalFiles.Source.{Exchange, publish_entry, to_external_url}
use simple_cwl_xenon_service.RemoteJobFiles
use simple_cwl_xenon_service.RemoteJobFiles.{
  Remote, read_remote_file, destage_job_output, destage_files, destage_file, work_dir,
}
use simple_cwl_xenon_service.ExecutionManager.Calm.{Calm, Here, here, drop as drop_column}
use simple_cwl_xenon_service.ExecutionManager.Destages.{AreCalm}
use simple_cwl_xenon_service.ExecutionManager.Final.{Kept}
use simple_cwl_xenon_service.ExecutionManager.Process.{process_one}
use simple_cwl_xenon_service.ExecutionManager.Parts.{Parts, backend, services-AreQuiet}
use simple_cwl_xenon_service.ExecutionManager.Undisturbed.{executing, process_one-Concludes}
use simple_cwl_xenon_service.Examples.{site, world, world-At}
use simple_cwl_xenon_service.Examples.Parts.{parts, exchange, remote}

abbrev output_document : Value
output_document = dict (
    dict_entry "out"
      (dict (
        dict_entry "class" (str "File")
          (dict_entry "location" (str "file:///home/cerise/out.txt") no_entries)))
      no_entries)

abbrev exchange_with_output : Exchange
exchange_with_output = record exchange {
  baseurl = some "http://localhost";
  loads = λ text. ok output_document;
}

abbrev remote_with_output : Remote
remote_with_output = record remote { loads = λ text. ok output_document }

abbrev parts_with_output : Parts
parts_with_output = record parts { exchange = exchange_with_output; remote = remote_with_output }

-- What is destaged: nothing, where the job's output is the empty text.
abbrev output_file : File
output_file =
    file (some "out") none (str "out.txt")
      (some (child (work_dir site remote_with_output 7) "out.txt")) no_files

abbrev files_if : Bool → List File
files_if empty = if empty then [] else output_file ∷ []

abbrev IsDestaged : List File → Type 0
IsDestaged files = (empty : Bool) × (files ≡ files_if empty)

update_job-Calm : Calm 7 (RemoteJobFiles.update_job site remote_with_output 7)
unfolding RemoteJobFiles.update_job RemoteJobFiles.read_remote_file ask
update_job-Calm =
    Triple-find_known 7 (here 7) _ (record { run = λ w h. record { row = h.row; apart = h.apart } })

delete_job-Calm : Calm 7 (RemoteJobFiles.delete_job site remote_with_output 7)
unfolding RemoteJobFiles.delete_job ask
delete_job-Calm = record { run = λ w h. record { row = h.row; apart = h.apart } }

delete_output_dir-Calm : Calm 7 (delete_output_dir site exchange_with_output 7)
unfolding delete_output_dir ask
delete_output_dir-Calm = record { run = λ w h. record { row = h.row; apart = h.apart } }

destage_job_output-IsDestaged :
    Triple
      (Here 7)
      (destage_job_output site remote_with_output 7)
      (λ files w. IsDestaged files × Here 7 w)
      Never
unfolding destage_job_output destage_files destage_file drop get_files_from_binding lookup get
    get_item secondary_fields
destage_job_output-IsDestaged = Triple-find_known 7 (here 7) _ (
    Triple-bind (drop_column 7 (λ s h. refl) (λ r. r.remote_output)) λ _.
      Triple-bind (drop_column 7 (λ s h. refl) (λ r. r.remote_output)) λ remote_output.
        Triple-if (str_eq remote_output "") (λ e. Triple-pure [] λ w h. ((true, refl), h))
          (λ n.
            Triple-bind (drop_column 7 (λ s h. refl) (λ r. r.remote_output))
              λ text. record { run = λ w h. ((false, refl), h) }))

publish_job_output-Calm :
    (files : List File)
    → IsDestaged files
    → Calm 7 (publish_job_output site exchange_with_output 7 files)
unfolding publish_job_output publish_files create_output_dir publish_entry to_external_url ask
    get_item set_item set_entry lookup
publish_job_output-Calm files (true, e) =
    rw e (Triple-find_known 7 (here 7) _ (Triple-pure tt λ w h. h))
publish_job_output-Calm files (false, e) = rw e (
    Triple-find_known 7 (here 7) _ (
      Triple-bind (drop_column 7 (λ s h. refl) (λ r. r.remote_output)) λ remote_output. record {
        run = λ w h.
            (Triple-write 7 (here 7) _ (λ r. refl) λ r k. refl).run _
              (record { row = h.row; apart = h.apart });
      }))

parts_with_output-AreCalm : AreCalm (backend parts_with_output).services 7 IsDestaged
parts_with_output-AreCalm = record {
  update_files = update_job-Calm;
  destage_job_output = destage_job_output-IsDestaged;
  publish_job_output = publish_job_output-Calm;
  delete_remote_dir = delete_job-Calm;
  delete_output_dir = delete_output_dir-Calm;
}

executing-running : executing running ≡ true
unfolding executing
executing-running = refl

process_one-Concludes_example :
    Post
      (λ go_on w. (go_on ≡ true) × Kept 7 w)
      Never
      (process_one (backend parts_with_output) true 7 (world running))
process_one-Concludes_example =
    process_one-Concludes 7 (backend parts_with_output) IsDestaged
      (services-AreQuiet parts_with_output) parts_with_output-AreCalm (λ calls remote_id. refl)
      (world running) (world-At executing running executing-running)
