-- ===== src/Examples/Service.antt =====
-- Two rounds of the service with its own parts, on files that are all empty.
use simple_cwl_xenon_service.Prelude.{ℕ, ◌≡◌, refl, inl, true}
use simple_cwl_xenon_service.Prelude.Int.{ℤ, pos}
use simple_cwl_xenon_service.JobState.{waiting, running, submitted, success, state_eq, is_final}
use simple_cwl_xenon_service.JobState.Laws.{state_eq_refl}
use simple_cwl_xenon_service.World.Keeps.{staged_in}
use simple_cwl_xenon_service.World.Retained.{Submission, Retained}
use simple_cwl_xenon_service.RemoteApi.Installing.{Repeats}
use simple_cwl_xenon_service.ExecutionManager.Final.{Kept}
use simple_cwl_xenon_service.ExecutionManager.Onward.{Staged}
use simple_cwl_xenon_service.ExecutionManager.Serving.{
  before_start, between_rounds, serve_from, serve, serve-Kept, serve-Staged, serve-Retained,
}
use simple_cwl_xenon_service.ExecutionManager.Bystander.{InOrGone}
use simple_cwl_xenon_service.ExecutionManager.Clients.{no_less_far, serve-no_less_far}
use simple_cwl_xenon_service.Examples.{job, world, world-At, is_final-success}
use simple_cwl_xenon_service.Examples.Parts.{retry, parts}

retry-Repeats : Repeats retry
retry-Repeats = record { done = λ m q. q; told = λ m q. q }

abbrev perf_counter : ℕ → ℤ
perf_counter n = pos n

serve-Kept_example :
    Kept 7 (serve_from parts perf_counter (pos 1) (pos 1) before_start 2 (world success)).1
serve-Kept_example =
    serve-Kept 7 parts perf_counter (pos 1) (pos 1) retry-Repeats before_start 2 (world success)
      (inl (world-At is_final success is_final-success))

staged_in-waiting : staged_in waiting ≡ true
unfolding staged_in
staged_in-waiting = refl

serve-Staged_example :
    Staged 7
      (serve_from parts perf_counter (pos 1) (pos 1) (between_rounds 3 (pos 1)) 2 (world waiting)).1
serve-Staged_example =
    serve-Staged 7 parts perf_counter (pos 1) (pos 1) retry-Repeats (between_rounds 3 (pos 1)) 2
      (world waiting) (inl (world-At staged_in waiting staged_in-waiting))

abbrev sent : Submission
sent = record { name = "test"; workflow = "file:///wf.cwl"; local_input = "{}" }

serve-Retained_example :
    Retained 7 sent (serve parts perf_counter (pos 1) (pos 1) 2 (world submitted)).1
serve-Retained_example =
    serve-Retained 7 sent parts perf_counter (pos 1) (pos 1) retry-Repeats 2 (world submitted)
      (record { row = (job submitted, refl, refl); unasked = (tt, (tt, tt)) })

serve-no_less_far_example :
    InOrGone 7
      (no_less_far running)
      (serve_from parts perf_counter (pos 1) (pos 1) before_start 2 (world running)).1
serve-no_less_far_example =
    serve-no_less_far 7 parts perf_counter (pos 1) (pos 1) retry-Repeats before_start 2 running
      (world running) (world-At (λ s. state_eq s running) running (state_eq_refl running))
