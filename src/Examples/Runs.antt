-- ===== src/Examples/Runs.antt =====
-- The connection pool, and a workflow whose one step waits for itself.
use simple_cwl_xenon_service.Prelude.{
  ◌≡◌, refl, Bool, false, true, is_some, some, List, [], ◌∷◌, arith,
}
use simple_cwl_xenon_service.Exception.{Outcome, ok, raised, attribute_error}
use simple_cwl_xenon_service.JobStore.Pool.{
  Pool, Call, enters, exits, statements, init, run, local, Reply, step, enter, exit, set_local,
}
use simple_cwl_xenon_service.JobStore.Pool.Laws.{Tracked, Clean, occurrences, held}
use simple_cwl_xenon_service.JobStore.Pool.Limits.{Limited, holders}
use simple_cwl_xenon_service.JobStore.Pool.Refinement.{
  Sound, Nesting, nest_all, run-Sound, nest, deepen,
}
use simple_cwl_xenon_service.Text.{split}
use simple_cwl_xenon_service.Cwltiny.Workflow.{
  has_unexecuted_steps, resolve_step_inputs, resolve_output_reference,
}
use simple_cwl_xenon_service.Value.{
  null, get_item, is_in, set_item, set_entry, get, lookup, Value, str, dict, list, no_entries,
  dict_entry, no_items, item,
}
use simple_cwl_xenon_service.Cwltiny.Progress.{pending}
use simple_cwl_xenon_service.Cwltiny.Run.{run_loop, run_round, run_steps}
use simple_cwl_xenon_service.Cwltiny.Ending.{Stalled, run_loop-Stalled}

-- Thread 0 uses the store, and then uses it again from two nested blocks.
abbrev calls : List Call
calls =
    enters 0
    ∷ statements 0
    ∷ exits 0
    ∷ enters 0
    ∷ enters 0
    ∷ statements 0
    ∷ exits 0
    ∷ statements 0
    ∷ []

init-Sound : Sound 0 (λ i. 0) init
unfolding Tracked Clean Limited occurrences held holders local
init-Sound = record {
  unlocked = refl;
  all_opened = λ c h. refl;
  depths = λ i. refl;
  tracked = λ c. ground arith;
  clean = λ c h. ground arith;
  limited = (ground arith, ground arith);
}

abbrev nesting : Nesting
nesting = deepen 0 1 (deepen 0 2 (deepen 0 1 (deepen 0 0 (deepen 0 1 (λ i. 0)))))

run-Sound_example :
    (result : Pool) × (run calls init ≡ some (ok tt, result)) × Sound 0 nesting result
unfolding nest_all nest
run-Sound_example =
    run-Sound 0 calls (λ i. 0) nesting init
      (refl, (refl, (refl, (refl, (refl, (refl, (refl, (refl, tt)))))))) init-Sound refl

-- A connection that thread 0 gave back cannot be used by thread 1, which leaves the pool locked.
abbrev two_threads : List Call
two_threads = enters 0 ∷ exits 0 ∷ enters 1 ∷ exits 1 ∷ []

abbrev raises : Reply → Bool
raises (some (raised e, p)) = is_some p.locked_by
raises _ = false

two_threads-raises : raises (run two_threads init) ≡ true
unfolding run step enter exit local set_local
two_threads-raises = refl

abbrev step_in : Value
step_in = dict (dict_entry "id" (str "x") (dict_entry "source" (str "loop/out") no_entries))

abbrev waiting_step : Value
waiting_step = dict (
    dict_entry "id" (str "loop") (
      dict_entry "run" (str "loop.cwl") (
        dict_entry "in" (list (item step_in no_items)) (
          dict_entry "out" (list (item (dict (dict_entry "id" (str "out") no_entries)) no_items)) (
            dict_entry "cwltiny_input_values" (dict (dict_entry "x" null no_entries))
              no_entries)))))

abbrev looping : Value
looping = dict (dict_entry "steps" (list (item waiting_step no_items)) no_entries)

-- The outside of cwltiny: no document and no tool is ever reached.
abbrev load : Value → Outcome Value
load path = raised attribute_error

abbrev no_process : Value → Value → Outcome (Bool × Value)
no_process run_dict input_dict = ok (false, dict no_entries)

run_loop-Stalled_example : Stalled load no_process no_process (dict no_entries) looping
unfolding has_unexecuted_steps get_item is_in run_loop run_round run_steps resolve_step_inputs
    resolve_output_reference split set_item set_entry get pending lookup
run_loop-Stalled_example =
    run_loop-Stalled load no_process no_process 1 (dict no_entries) false looping
      (waiting_step ∷ []) refl (omega arith) refl
