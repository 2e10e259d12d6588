-- ===== src/Examples/Transfers.antt =====
-- The installation of the API on compute resources that fail or are slow, and an output file.
use simple_cwl_xenon_service.Prelude.{refl, some, [], ◌∷◌, leb, length}
use simple_cwl_xenon_service.Exception.{ok, raised, ssh_exception}
use simple_cwl_xenon_service.FileSystem.{remote}
use simple_cwl_xenon_service.World.{Site}
use simple_cwl_xenon_service.Examples.{site}
use simple_cwl_xenon_service.Examples.Parts.{remote as remote_files}
use simple_cwl_xenon_service.Prelude.{none}
use simple_cwl_xenon_service.FileSystem.{child}
use simple_cwl_xenon_service.Text.{drop, decimal}
use simple_cwl_xenon_service.Value.{str}
use simple_cwl_xenon_service.Cwl.Files.{File, file, no_files}
use simple_cwl_xenon_service.RemoteJobFiles.{work_dir, destage_file, destage_files}
use simple_cwl_xenon_service.RemoteJobFiles.Destaging.{AllInside, destage_files-AllInside}

abbrev disconnected : Site
disconnected = record site {
  done_reply = λ calls call. raised (ssh_exception (some (decimal (length calls))));
}

-- The script is there at the second look.
abbrev slow : Site
slow = record site { test_reply = λ calls call. ok (leb 1 (length calls)) }

-- An output file of a job, and what is published of it.
abbrev output : File
output = file (some "out") none (str "file:///home/cerise/out.txt") none no_files

abbrev relative_output : File
relative_output =
    file (some "out") none (str "out.txt") (some (child (work_dir site remote_files 7) "out.txt"))
      no_files

destage_files-AllInside_example : AllInside site remote_files 7 (output ∷ []) (relative_output ∷ [])
unfolding destage_files destage_file drop
destage_files-AllInside_example =
    destage_files-AllInside site remote_files 7 (output ∷ []) (relative_output ∷ []) refl
