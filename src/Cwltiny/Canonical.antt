-- ===== src/Cwltiny/Canonical.antt =====
-- Normalised documents.
use simple_cwl_xenon_service.Prelude.{◌≡◌, refl, ◌∙◌, Bool, true, false, not, arith, if◌then◌else◌}
use simple_cwl_xenon_service.Exception.{Outcome, ok, bind-ok, bind-of_ok}
use simple_cwl_xenon_service.Value.{Value, dict, list, is_in, get_item, set_item}
use simple_cwl_xenon_service.Value.Laws.{
  get_item-set_item, get_item-set_item_ne, set_item-get_item, is_in-get_item,
}
use simple_cwl_xenon_service.Cwltiny.{exit_validation}
use simple_cwl_xenon_service.Cwltiny.Normalise.{listed, normalise_process}

listed_twice : (v : Value) → listed (listed v) ≡ listed v
unfolding listed
listed_twice (dict fs) = refl
listed_twice (list vs) = refl
listed_twice (Value.str s) = refl
listed_twice (Value.int n) = refl
listed_twice (Value.bool b) = refl
listed_twice Value.null = refl

-- A document whose inputs and outputs are not dictionaries is left as it is.
normalise_process-listed :
    (v u d : Value)
    → get_item "inputs" d ≡ ok (listed v)
    → get_item "outputs" d ≡ ok (listed u)
    → normalise_process d ≡ ok d
unfolding normalise_process
normalise_process-listed v u d inputs outputs =
    bind-of_ok (is_in "inputs" d) _ true (is_in-get_item "inputs" (listed v) d inputs)
    ∙ bind-of_ok (get_item "inputs" d) _ (listed v) inputs
    ∙ bind-of_ok (set_item "inputs" (listed (listed v)) d) _ d
        (rw (listed_twice v) (set_item-get_item "inputs" (listed v) d inputs))
    ∙ bind-of_ok (is_in "outputs" d) _ true (is_in-get_item "outputs" (listed u) d outputs)
    ∙ bind-of_ok (get_item "outputs" d) _ (listed u) outputs
    ∙ rw (listed_twice u) (set_item-get_item "outputs" (listed u) d outputs)

-- What a guard lets through.
guarded :
    (b : Bool) (m : Outcome Value) (d : Value)
    → (if not b then exit_validation else m) ≡ ok d
    → m ≡ ok d
guarded true m d h = h
guarded false m d h = ground arith

-- A normalised document is left as it is when it is normalised again.
pub normalise_process_twice :
    (d d' : Value) → normalise_process d ≡ ok d' → normalise_process d' ≡ ok d'
unfolding normalise_process
normalise_process_twice d d' e =
    let (b, has, e₁) = bind-ok (is_in "inputs" d) _ d' e in
    let (v, inputs, e₂) = bind-ok (get_item "inputs" d) _ d' (guarded b _ d' e₁) in
    let (d₁, set, e₃) = bind-ok (set_item "inputs" (listed v) d) _ d' e₂ in
    let (b', has', e₄) = bind-ok (is_in "outputs" d₁) _ d' e₃ in
    let (u, outputs, set') = bind-ok (get_item "outputs" d₁) _ d' (guarded b' _ d' e₄) in
    normalise_process-listed v u d'
      (get_item-set_item_ne "inputs" "outputs" (listed u) d₁ d' refl set'
        ∙ get_item-set_item "inputs" (listed v) d d₁ set)
      (get_item-set_item "outputs" (listed u) d₁ d' set')
