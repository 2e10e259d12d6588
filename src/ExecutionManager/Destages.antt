-- ===== src/ExecutionManager/Destages.antt =====
-- A job in FINISHED is destaged into a final state, when the parts return.
use simple_cwl_xenon_service.ExecutionManager.Calm.{
  Calm, Here, Triple-meet, IsFinal, here, to_here, attempt-Calm, unless-Calm, drop,
}
use simple_cwl_xenon_service.Prelude.{
  ℕ, ◌≡◌, refl, arith, String, true, false, not, List, inl, inr, Bool-cases,
}
use simple_cwl_xenon_service.JobState.{
  JobState, finished, staging_out, staging_out_cr, cancelled, system_error, state_eq, is_final,
}
use simple_cwl_xenon_service.Cwl.{get_cwltool_result}
use simple_cwl_xenon_service.Cwl.Files.{File}
use simple_cwl_xenon_service.World.{log}
use simple_cwl_xenon_service.World.At.{InState, InState-Stable, StableTest, At}
use simple_cwl_xenon_service.World.Triple.{
  Triple, Never, Triple-fact, Triple-pure, Triple-weaken, Triple-forget, Triple-raises, Triple-bind,
  Triple-read, Triple-write_state, Triple-log, At-map,
}
use simple_cwl_xenon_service.ExecutionManager.Interface.{Backend, Services, AreQuiet}
use simple_cwl_xenon_service.ExecutionManager.{conclude_destaging, destage_owned, destage_job}
use simple_cwl_xenon_service.ExecutionManager.Concluding.{
  finishing, destaging, destaged-is_final, destage_job-Triple,
}
use simple_cwl_xenon_service.ExecutionManager.Process.{destage_if_finished}

-- The parts that a round on a job uses after it was started return. `Ready` is what destaging gives,
-- and what publishing needs.
pub record AreCalm (services : Services) (id : ℕ) (Ready : List File → Type 0) : Type 0 where
  pub update_files : Calm id (services.update_files id)
  pub destage_job_output :
      Triple (Here id) (services.destage_job_output id) (λ files w. Ready files × Here id w) Never
  pub publish_job_output :
      (files : List File) → Ready files → Calm id (services.publish_job_output id files)
  pub delete_remote_dir : Calm id (services.delete_remote_dir id)
  pub delete_output_dir : Calm id (services.delete_output_dir id)

pub finishing-StableTest : StableTest finishing
unfolding finishing
finishing-StableTest s h = ground arith

final_if_not_finished :
    (s : JobState) → finishing s ≡ true → state_eq s finished ≡ false → is_final s ≡ true
unfolding finishing is_final
final_if_not_finished s h n = ground arith

module _ (id : ℕ) (backend : Backend) (quiet : AreQuiet backend.services)
    {Ready : List File → Type 0} (calm : AreCalm backend.services id Ready) where
  open backend use {site, services}

  log-Calm : (level : ℕ) (message : List String) → Calm id (log site id level message)
  log-Calm level message = Triple-log id (here id) site level message

  conclude_destaging-Calm : (result : JobState) → Calm id (conclude_destaging backend result id)
  unfolding conclude_destaging
  conclude_destaging-Calm result = Triple-bind (attempt-Calm id staging_out result) λ ended.
      unless-Calm id ended (
        Triple-bind (attempt-Calm id staging_out_cr cancelled) λ stopped.
          unless-Calm id stopped (Triple-write_state id (here id) system_error (λ r h. refl)))

  destage_owned-Calm : (remote_error : String) → Calm id (destage_owned backend id remote_error)
  unfolding destage_owned
  destage_owned-Calm remote_error = Triple-bind (log-Calm _ _) λ _.
      Triple-bind calm.destage_job_output λ files.
        Triple-fact {X = Ready files} (λ w h. h.0)
          λ ready.
            Triple-weaken {P' = Here id} (λ w h. h.1)
              (Triple-bind (calm.publish_job_output files ready) λ _.
                Triple-bind (log-Calm _ _)
                  (λ _. conclude_destaging-Calm (get_cwltool_result remote_error)))

  destage_job-Calm : Calm id (destage_job backend id)
  unfolding destage_job
  destage_job-Calm = Triple-bind (drop id (λ s h. refl) (λ r. r.remote_error)) λ remote_error.
      Triple-bind (attempt-Calm id finished staging_out)
        λ owned. unless-Calm id (not owned) (destage_owned-Calm remote_error)

  -- The log that the job has now is the one that decides.
  destage_job-IsFinal :
      Triple (At id (InState finishing)) (destage_job backend id) (λ _. IsFinal id) Never
  destage_job-IsFinal = Triple-meet (to_here id) ends destage_job-Calm
    where
      ends :
          Triple
            (At id (InState finishing))
            (destage_job backend id)
            (λ _. IsFinal id)
            (λ e w. Unit)
      ends = record {
        run = λ w a.
            let cwltool_log = a.row.0.remote_error in
            (Triple-raises {D = λ e. At id (InState destaging)} (λ e v h. tt)
                (Triple-forget (λ v u h. At-map (λ r q. destaged-is_final cwltool_log r.state q) h)
                  (destage_job-Triple id backend quiet cwltool_log))).run
              w (record { row = (a.row.0, a.row.1, (a.row.2, refl)); apart = a.apart });
      }

  pub destage_if_finished-IsFinal :
      Triple (At id (InState finishing)) (destage_if_finished backend id) (λ _. IsFinal id) Never
  unfolding destage_if_finished
  destage_if_finished-IsFinal =
      Triple-bind (Triple-read id (InState-Stable finishing finishing-StableTest) (λ r. r.state))
        λ state. elim (Bool-cases (state_eq state finished)) [
          | inl e ↦ rw e (Triple-weaken (λ w a. At-map (λ r h. h.0) a) destage_job-IsFinal)
          | inr n ↦ rw n (
              Triple-pure tt
                (λ w a. At-map (λ r h. final_if_not_finished r.state h.0 (rw h.1 n)) a))
        ]
