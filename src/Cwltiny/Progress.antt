-- ===== src/Cwltiny/Progress.antt =====
-- What a round of the loop does to the steps that are still to be executed.
use simple_cwl_xenon_service.Prelude.{
  ℕ, ◌+◌, ◌≡◌, refl, ap, subst, Bool, true, false, not, Option, none, some, List, [], ◌∷◌,
  if◌then◌else◌, arith, inl, inr, Bool-cases,
}
use simple_cwl_xenon_service.Exception.{
  Outcome, ok, ok-injective, Returns, Returns-bind, Returns-after, Returns-if, ok-Returns,
}
use simple_cwl_xenon_service.Value.{
  Items, Value, bool, dict, list, no_entries, lookup, set_item, get_item, get, is_in, truth,
  iterate, or_null,
}
use simple_cwl_xenon_service.Value.Laws.{lookup-set_entry, lookup-set_entry_ne}
use simple_cwl_xenon_service.Cwltiny.{process_type}
use simple_cwl_xenon_service.Cwltiny.Workflow.{resolve_inputs, resolve_step_inputs}
use simple_cwl_xenon_service.Cwltiny.Run.{
  run_process, execute_workflow_step, run_steps, with_outputs,
}

-- A step that the loop does not execute any more.
abbrev pub is_done : Value → Bool
is_done (dict fs) = truth (or_null (lookup "cwltiny_output_available" fs))
is_done _ = false

-- The steps that are still to be executed.
unfoldable pub pending : List Value → ℕ
unfolding lookup
pending [] = 0
pending (step ∷ steps) = (if is_done step then 0 else 1) + pending steps

abbrev pub ran_one : Option Bool → ℕ
ran_one none = 0
ran_one (some error) = 1

is_done-set_values :
    (v step step' : Value)
    → set_item "cwltiny_input_values" v step ≡ ok step'
    → is_done step' ≡ is_done step
unfolding set_item
is_done-set_values v (dict fs) step' e =
    subst (λ x. is_done x ≡ is_done (dict fs)) (ok-injective _ step' e)
      (rw (lookup-set_entry_ne "cwltiny_output_available" "cwltiny_input_values" v fs refl) refl)
is_done-set_values v _ step' e = ground arith

is_done-set_available :
    (step step' : Value)
    → set_item "cwltiny_output_available" (bool true) step ≡ ok step'
    → is_done step' ≡ true
unfolding set_item
is_done-set_available (dict fs) step' e =
    subst (λ x. is_done x ≡ true) (ok-injective _ step' e)
      (rw (lookup-set_entry "cwltiny_output_available" (bool true) fs) refl)
is_done-set_available _ step' e = ground arith

get-is_done :
    (step available : Value)
    → get "cwltiny_output_available" step ≡ ok available
    → is_done step ≡ truth available
unfolding get
get-is_done (dict fs) available e = ap truth (ok-injective _ available e)
get-is_done _ available e = ground arith

resolve_step_inputs-Returns :
    (workflow_dict input_dict step : Value)
    → Returns (λ r. is_done r.0 ≡ is_done step) (resolve_step_inputs workflow_dict input_dict step)
unfolding resolve_step_inputs
resolve_step_inputs-Returns workflow_dict input_dict step =
    let P : Value × Bool → Type 0 = λ r. is_done r.0 ≡ is_done step in
    Returns-after P (get_item "id" step) _ λ id.
      Returns-after P (is_in "cwltiny_input_values" step) _ λ has_values.
        Returns-after P
          (if has_values then get_item "cwltiny_input_values" step else ok (dict no_entries)) _
          λ values. Returns-after P (is_in "in" step) _ λ has_in.
            Returns-after P (if has_in then get_item "in" step else ok (list Items.no_items)) _
              λ inputs. Returns-after P (iterate inputs) _ λ each.
                Returns-after P (resolve_inputs workflow_dict input_dict each values) _
                  λ (r : Value × Bool).
                    Returns-bind P (λ step'. is_done step' ≡ is_done step)
                      (set_item "cwltiny_input_values" r.0 step) _
                      (ok-Returns _ _ (is_done-set_values r.0 step)) (λ step' h. h)

module _ (load : Value → Outcome Value)
    (run_nested run_tool : Value → Value → Outcome (Bool × Value)) where
  execute_workflow_step-Returns :
      (step : Value)
      → Returns (λ r. is_done r.1 ≡ true) (execute_workflow_step load run_nested run_tool step)
  unfolding execute_workflow_step
  execute_workflow_step-Returns step =
      let P : Bool × Value → Type 0 = λ r. is_done r.1 ≡ true in
      Returns-after P (is_in "run" step) _ λ has_run. Returns-if P (not has_run) _ _ tt (
        Returns-after P (get_item "id" step) _ λ id. Returns-after P (get_item "run" step) _ λ run.
          Returns-after P (load run) _ λ run_dict.
            Returns-after P (get_item "cwltiny_input_values" step) _ λ input_dict.
              Returns-after P (process_type run_dict) _ λ class.
                Returns-after P (run_process load run_nested run_tool class run_dict input_dict) _
                  λ (r : Bool × Value). Returns-after P (with_outputs r.1 step) _ λ filled.
                    Returns-bind P (λ step'. is_done step' ≡ true)
                      (set_item "cwltiny_output_available" (bool true) filled) _
                      (ok-Returns _ _ (is_done-set_available filled)) (λ step' h. h))

  -- A round over the steps executes one step or none, and no step is to be executed again.
  pub run_steps-Returns :
      (workflow_dict input_dict : Value) (steps : List Value)
      → Returns
          (λ r. pending r.1 + ran_one r.0 ≡ pending steps)
          (run_steps load run_nested run_tool workflow_dict input_dict steps)
  unfolding run_steps pending
  run_steps-Returns workflow_dict input_dict [] = refl
  run_steps-Returns workflow_dict input_dict (step ∷ steps) =
      let P : Option Bool × List Value → Type 0 =
        λ r. pending r.1 + ran_one r.0 ≡ pending (step ∷ steps) in
      let Q : Option Bool × List Value → Type 0 = λ r. pending r.1 + ran_one r.0 ≡ pending steps in
      let more = run_steps load run_nested run_tool workflow_dict input_dict steps in
      let others = run_steps-Returns workflow_dict input_dict steps in
      Returns-bind P (λ available. is_done step ≡ truth available)
        (get "cwltiny_output_available" step) _ (ok-Returns _ _ (get-is_done step))
        λ available done. elim (Bool-cases (truth available)) [
          | inl e ↦ rw e (Returns-bind P Q more _ others λ r h. omega (arith, h))
          | inr e ↦ rw e (
              Returns-bind P (λ r. is_done r.0 ≡ is_done step)
                (resolve_step_inputs workflow_dict input_dict step) _
                (resolve_step_inputs-Returns workflow_dict input_dict step)
                λ (r : Value × Bool) same.
                  Returns-if P r.1 _ _
                    (Returns-bind P (λ s. is_done s.1 ≡ true)
                      (execute_workflow_step load run_nested run_tool r.0) _
                      (execute_workflow_step-Returns r.0)
                      λ s executed. rw (executed, done, e) (omega arith))
                    (Returns-bind P Q more _ others λ q h. rw same (omega (arith, h))))
        ]
