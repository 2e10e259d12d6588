-- ===== src/Cwltiny/Sorting.antt =====
-- The order of the arguments on the command line.
use simple_cwl_xenon_service.Prelude.{
  ◌++◌ as append_list, ◌≡◌, refl, sym, String, Bool, true, false, inl, inr, Bool-cases, List, [],
  ◌∷◌, arith, select, if◌then◌else◌, ◌&&◌, not,
}
use simple_cwl_xenon_service.Prelude.Int.{ℤ, pos, ltb_ℤ, ◌≤ℤ◌}
use simple_cwl_xenon_service.Exception.{Outcome, ok, bind-ok, ok-injective}
use simple_cwl_xenon_service.Value.{Value, get_item, iterate}
use simple_cwl_xenon_service.Cwltiny.CommandLine.{
  Argument, insert_argument, sort_arguments, fixed_arguments, create_arguments, flatten,
  create_command_line,
}

-- The arguments with a key.
abbrev pub has_position : ℤ → Argument → Bool
has_position key arg = not (ltb_ℤ arg.position key) && not (ltb_ℤ key arg.position)

abbrev pub IsLowest : ℤ → List Argument → Type 0
IsLowest key [] = Unit
IsLowest key (a ∷ args) = (key ≤ℤ a.position) × IsLowest key args

abbrev pub IsOrdered : List Argument → Type 0
IsOrdered [] = Unit
IsOrdered (a ∷ args) = IsLowest a.position args × IsOrdered args

lower : (key key' : ℤ) (args : List Argument) → key' ≤ℤ key → IsLowest key args → IsLowest key' args
lower key key' [] le h = tt
lower key key' (a ∷ args) le h = (omega (arith, h.0), lower key key' args le h.1)

insert_argument-IsLowest :
    (key : ℤ) (arg : Argument) (args : List Argument)
    → key ≤ℤ arg.position
    → IsLowest key args
    → IsLowest key (insert_argument arg args)
insert_argument-IsLowest key arg [] le h = (le, tt)
insert_argument-IsLowest key arg (a ∷ args) le h =
    elim (Bool-cases (ltb_ℤ a.position arg.position)) [
      | inl e ↦ rw e (h.0, insert_argument-IsLowest key arg args le h.1)
      | inr e ↦ rw e (le, h)
    ]

insert_argument-IsOrdered :
    (arg : Argument) (args : List Argument) → IsOrdered args → IsOrdered (insert_argument arg args)
insert_argument-IsOrdered arg [] h = (tt, tt)
insert_argument-IsOrdered arg (a ∷ args) h = elim (Bool-cases (ltb_ℤ a.position arg.position)) [
  | inl e ↦ rw e (
    insert_argument-IsLowest a.position arg args (ground arith) h.0,
    insert_argument-IsOrdered arg args h.1,
  )
  | inr e ↦ rw e ((ground arith, lower a.position arg.position args (ground arith) h.0), h)
]

apart :
    (key : ℤ) (a arg : Argument)
    → ltb_ℤ a.position arg.position ≡ true
    → (has_position key a && has_position key arg) ≡ false
apart key a arg e = ground arith

swap :
    (p q : Bool) (a b : Argument) (xs ys : List Argument)
    → (p && q) ≡ false
    → xs ≡ (if q then b ∷ ys else ys)
    → (if p then a ∷ xs else xs)
      ≡ (if q then b ∷ (if p then a ∷ ys else ys) else (if p then a ∷ ys else ys))
swap true true a b xs ys h e = ground arith
swap true false a b xs ys h e = rw e refl
swap false q a b xs ys h e = e

insert_argument-select :
    (key : ℤ) (arg : Argument) (args : List Argument)
    → select (has_position key) (insert_argument arg args) ≡ select (has_position key) (arg ∷ args)
insert_argument-select key arg [] = refl
insert_argument-select key arg (a ∷ args) = elim (Bool-cases (ltb_ℤ a.position arg.position)) [
  | inl e ↦ rw e (
      swap (has_position key a) (has_position key arg) a arg _ (select (has_position key) args)
        (apart key a arg e) (insert_argument-select key arg args))
  | inr e ↦ rw e refl
]

sort_arguments-IsOrdered :
    (key : ℤ) (args : List Argument)
    → IsOrdered (sort_arguments args)
      × (select (has_position key) (sort_arguments args) ≡ select (has_position key) args)
unfolding sort_arguments
sort_arguments-IsOrdered key [] = (tt, refl)
sort_arguments-IsOrdered key (arg ∷ args) =
    let (ordered, same) = sort_arguments-IsOrdered key args in
    (
      insert_argument-IsOrdered arg (sort_arguments args) ordered,
      rw (insert_argument-select key arg (sort_arguments args), same) refl,
    )

-- The arguments that a description and an input give, before they are sorted: the fixed ones, and one
-- for each parameter.
abbrev pub IsGiven : (Value → String) → (Value → Outcome ℤ) → Value → Value → List Argument → Type 0
IsGiven show to_int clt_desc input_dict given =
    (fixed : List Argument) × (args : List Argument) × (inputs : Value) × (parameters : List Value)
    × (fixed_arguments clt_desc ≡ ok fixed)
    × (get_item "inputs" clt_desc ≡ ok inputs)
    × (iterate inputs ≡ ok parameters)
    × (create_arguments show to_int input_dict parameters ≡ ok args)
    × (given ≡ append_list fixed args)

-- The list has the given arguments, in the order of their positions, and those with one position in
-- the order in which they were given.
abbrev pub IsArranged : List Argument → List Argument → Type 0
IsArranged given args =
    IsOrdered args × ((key : ℤ) → select (has_position key) args ≡ select (has_position key) given)

-- When `create_command_line` returns, the command line has the items of the fixed arguments of the tool
-- and of those that its parameters give, arranged by their positions, and for one position in the order
-- in which they were given.
pub create_command_line-IsArranged :
    (show : Value → String) (to_int : Value → Outcome ℤ) (clt_desc input_dict : Value)
    (line : List Value)
    → create_command_line show to_int clt_desc input_dict ≡ ok line
    → (given : List Argument) × (args : List Argument) × IsGiven show to_int clt_desc input_dict
        given
      × IsArranged given args
      × (line ≡ flatten args)
unfolding create_command_line
create_command_line-IsArranged show to_int clt_desc input_dict line e =
    let (fixed, e₁, r₁) = bind-ok (fixed_arguments clt_desc) _ line e in
    let (inputs, e₂, r₂) = bind-ok (get_item "inputs" clt_desc) _ line r₁ in
    let (parameters, e₃, r₃) = bind-ok (iterate inputs) _ line r₂ in
    let (args, e₄, r₄) = bind-ok (create_arguments show to_int input_dict parameters) _ line r₃ in
    let given : List Argument = append_list fixed args in
    (
      given,
      sort_arguments given,
      (fixed, args, inputs, parameters, e₁, e₂, e₃, e₄, refl),
      ((sort_arguments-IsOrdered (pos 0) given).0, λ key. (sort_arguments-IsOrdered key given).1),
      sym (ok-injective _ line r₄),
    )
