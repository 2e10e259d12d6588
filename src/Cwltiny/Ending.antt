-- ===== src/Cwltiny/Ending.antt =====
-- How often the loop of a workflow goes round.
use simple_cwl_xenon_service.Prelude.{
  ℕ, zero, suc, ◌≤◌, ◌≡◌, refl, sym, ◌∙◌, ap, subst, Bool, true, false, not, ◌&&◌, Option, none,
  some, List, [], ◌∷◌, arith, inl, inr, Bool-cases,
}
use simple_cwl_xenon_service.Exception.{
  Outcome, ok, bind-ok, ok-injective, Returns, Returns-bind, Returns-after, Returns-ok, ok-Returns,
}
use simple_cwl_xenon_service.Value.{Value, dict, list, set_item, get_item, is_in, items_of, list_of}
use simple_cwl_xenon_service.Value.Laws.{get_item-set_item}
use simple_cwl_xenon_service.Cwltiny.Progress.{is_done, pending, run_steps-Returns}
use simple_cwl_xenon_service.Cwltiny.Workflow.{has_unexecuted_steps, steps_of}
use simple_cwl_xenon_service.Cwltiny.Run.{run_steps, run_round, run_loop, goes_on, with_error}

items_of-list_of : (vs : List Value) → items_of (list_of vs) ≡ vs
items_of-list_of [] = refl
items_of-list_of (v ∷ vs) = rw (items_of-list_of vs) refl

steps_of-set_steps :
    (steps : List Value) (workflow_dict workflow' : Value)
    → set_item "steps" (list (list_of steps)) workflow_dict ≡ ok workflow'
    → steps_of workflow' ≡ ok steps
steps_of-set_steps steps workflow_dict workflow' e =
    rw (get_item-set_item "steps" (list (list_of steps)) workflow_dict workflow' e)
      (ap ok (items_of-list_of steps))

-- A step without the mark is still to be executed.
not_in-is_done :
    (step : Value) → is_in "cwltiny_output_available" step ≡ ok false → is_done step ≡ false
unfolding is_in
not_in-is_done (dict fs) e = ground (arith, ok-injective _ _ e)
not_in-is_done _ e = refl

has_unexecuted_steps-pending :
    (steps : List Value) → Returns (λ b. b ≡ true → 1 ≤ pending steps) (has_unexecuted_steps steps)
unfolding has_unexecuted_steps pending
has_unexecuted_steps-pending [] = λ e. ground arith
has_unexecuted_steps-pending (step ∷ steps) =
    let P : Bool → Type 0 = λ b. b ≡ true → 1 ≤ pending (step ∷ steps) in
    Returns-bind P (λ available. is_in "cwltiny_output_available" step ≡ ok available)
      (is_in "cwltiny_output_available" step) _ (ok-Returns _ _ λ available e. e)
      λ available e. elim (Bool-cases available) [
        | inl t ↦ rw t (
            ok-Returns P (has_unexecuted_steps steps) λ b is_b more.
              at_least (Returns-ok _ _ b (has_unexecuted_steps-pending steps) is_b more))
        | inr f ↦ rw f (
            Returns-after P (get_item "id" step) _
              λ id more. rw (not_in-is_done step (rw f at e)) (omega arith))
      ]
  where
    at_least : 1 ≤ pending steps → 1 ≤ pending (step ∷ steps)
    at_least h = omega (arith, h)

goes_on-unexecuted :
    (has_error : Bool) (workflow_dict : Value) (steps : List Value)
    → steps_of workflow_dict ≡ ok steps
    → goes_on has_error workflow_dict ≡ ok true
    → has_unexecuted_steps steps ≡ ok true
goes_on-unexecuted has_error workflow_dict steps is_steps e =
    let (steps₁, found, e₁) = bind-ok (steps_of workflow_dict) _ true e in
    let (unexecuted, answer, e₂) = bind-ok (has_unexecuted_steps steps₁) _ true e₁ in
    let same = ok-injective steps₁ steps (sym found ∙ is_steps) in
    rw (← same) (answer ∙ ap ok (both unexecuted has_error (ok-injective _ true e₂)))
  where
    both : (a b : Bool) → (a && not b) ≡ true → a ≡ true
    both true b h = refl
    both false b h = h

module _ (load : Value → Outcome Value)
    (run_nested run_tool : Value → Value → Outcome (Bool × Value)) (input_dict : Value) where
  -- The workflows that rounds in which a step is executed lead to.
  pub data Reached : Value → Value → Type 0 where
    here : (workflow_dict : Value) → Reached workflow_dict workflow_dict
    after_round :
        (workflow_dict workflow' last : Value) (error : Bool)
        → run_round load run_nested run_tool input_dict workflow_dict ≡ ok (some error, workflow')
        → Reached workflow' last
        → Reached workflow_dict last

  -- In one of them a step is still to be executed, but none has all its inputs.
  abbrev pub Stalled : Value → Type 0
  Stalled workflow_dict =
      (last : Value) × (steps : List Value) × (steps' : List Value) × Reached workflow_dict last
      × (steps_of last ≡ ok steps)
      × (has_unexecuted_steps steps ≡ ok true)
      × (run_steps load run_nested run_tool last input_dict steps ≡ ok (none, steps'))

  run_round-steps :
      (workflow_dict workflow' : Value) (ran : Option Bool) (steps : List Value)
      → steps_of workflow_dict ≡ ok steps
      → run_round load run_nested run_tool input_dict workflow_dict ≡ ok (ran, workflow')
      → (steps' : List Value) × (run_steps load run_nested run_tool workflow_dict input_dict steps
          ≡ ok (ran, steps'))
        × (steps_of workflow' ≡ ok steps')
  unfolding run_round
  run_round-steps workflow_dict workflow' ran steps is_steps e =
      let (steps₁, found, e₁) = bind-ok (steps_of workflow_dict) _ (ran, workflow') e in
      let same = ok-injective steps₁ steps (sym found ∙ is_steps) in
      let ((ran', steps'), ends, e₂) =
        bind-ok (run_steps load run_nested run_tool workflow_dict input_dict steps₁) _
          (ran, workflow') e₁ in
      let (workflow₁, set, e₃) =
        bind-ok (set_item "steps" (list (list_of steps')) workflow_dict) _ (ran, workflow') e₂ in
      let pair = ok-injective (ran', workflow₁) (ran, workflow') e₃ in
      (
        steps',
        subst
            (λ x. run_steps load run_nested run_tool workflow_dict input_dict x ≡ ok (ran, steps'))
            same (ends ∙ ap (λ x. ok (x.0, steps')) pair),
        steps_of-set_steps steps' workflow_dict workflow' (set ∙ ap (λ x. ok x.1) pair),
      )

  next_round :
      (fuel : ℕ) (ran : Option Bool) (workflow_dict workflow' : Value) (steps steps' : List Value)
      → steps_of workflow_dict ≡ ok steps
      → has_unexecuted_steps steps ≡ ok true
      → run_steps load run_nested run_tool workflow_dict input_dict steps ≡ ok (ran, steps')
      → run_round load run_nested run_tool input_dict workflow_dict ≡ ok (ran, workflow')
      → pending steps ≤ suc fuel
      → (pending steps' ≤ fuel → Stalled workflow')
      → Stalled workflow_dict
  next_round fuel none workflow_dict workflow' steps steps' is_steps more ends round le rest =
      (workflow_dict, steps, steps', here workflow_dict, is_steps, more, ends)
  next_round fuel (some error) workflow_dict workflow' steps steps' is_steps more ends round le
        rest =
      let count =
        Returns-ok _ _ (some error, steps')
          (run_steps-Returns load run_nested run_tool workflow_dict input_dict steps) ends in
      let (last, these, after, reached, parts, more', stops) = rest (omega (arith, le, count)) in
      (
        last,
        these,
        after,
        after_round workflow_dict workflow' last error round reached,
        parts,
        more',
        stops,
      )

-- If the loop of a workflow is not at its end after as many rounds as steps were to be executed, then
-- rounds that each execute a step lead to a round in which a step is still to be executed but none
-- has all its inputs.
pub run_loop-Stalled :
    (load : Value → Outcome Value) (run_nested run_tool : Value → Value → Outcome (Bool × Value))
    (fuel : ℕ) (input_dict : Value) (has_error : Bool) (workflow_dict : Value) (steps : List Value)
    → steps_of workflow_dict ≡ ok steps
    → pending steps ≤ fuel
    → run_loop load run_nested run_tool fuel input_dict has_error workflow_dict ≡ ok none
    → Stalled load run_nested run_tool input_dict workflow_dict
unfolding run_loop
run_loop-Stalled load run_nested run_tool zero input_dict has_error workflow_dict steps is_steps le
      e =
    let (more, answer, e₁) = bind-ok (goes_on has_error workflow_dict) _ none e in
    elim (Bool-cases more) [
      | inl t ↦ ground (
        arith,
        Returns-ok _ _ true (has_unexecuted_steps-pending steps)
            (goes_on-unexecuted has_error workflow_dict steps is_steps (answer ∙ ap ok t)) refl,
      )
      | inr f ↦ ground (arith, rw f at e₁)
    ]
run_loop-Stalled load run_nested run_tool (suc fuel) input_dict has_error workflow_dict steps
      is_steps le e =
    let (more, answer, e₁) = bind-ok (goes_on has_error workflow_dict) _ none e in
    elim (Bool-cases more) [
      | inl t ↦
          let ((ran, workflow'), round, e₂) =
            bind-ok (run_round load run_nested run_tool input_dict workflow_dict) _ none
              (rw t at e₁) in
          let (steps', ends, is_steps') =
            run_round-steps load run_nested run_tool input_dict workflow_dict workflow' ran steps
              is_steps round in
          next_round load run_nested run_tool input_dict fuel ran workflow_dict workflow' steps
            steps' is_steps
            (goes_on-unexecuted has_error workflow_dict steps is_steps (answer ∙ ap ok t)) ends
            round le
            λ less.
              run_loop-Stalled load run_nested run_tool fuel input_dict (with_error has_error ran)
                workflow' steps' is_steps' less e₂
      | inr f ↦ ground (arith, rw f at e₁)
    ]
