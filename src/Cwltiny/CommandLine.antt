-- ===== src/Cwltiny/CommandLine.antt =====
-- The command line of a tool.
use Prim.Native.String.{◌++◌, count}
use text.Mathlib.Text.{◌==◌ as str_eq}
use simple_cwl_xenon_service.Prelude.{
  ℕ, ◌-◌, String, Bool, true, false, not, ◌&&◌, List, [], ◌∷◌, map, ◌++◌ as append_list,
  if◌then◌else◌,
}
use simple_cwl_xenon_service.Prelude.Int.{ℤ, pos, negsuc, ltb_ℤ}
use simple_cwl_xenon_service.Exception.{Outcome, ok, raised, ◌>>=◌, type_error, attribute_error}
use simple_cwl_xenon_service.Text.{take, ends_with}
use simple_cwl_xenon_service.Value.{
  Value, str, list, is_in, get_item, get, is_none, truth, is_key, iterate,
}
use simple_cwl_xenon_service.Cwltiny.{exit_perm_fail, exit_system_error}

-- A sort key and the items of an argument.
pub record Argument : Type 0 where
  pub position : ℤ
  pub items : List Value

-- `text.endswith(...)`, then without that many characters.
abbrev as_str : Value → Outcome String
as_str (str s) = ok s
as_str _ = raised attribute_error

abbrev without_end : ℕ → String → String
without_end n s = take (count s - n) s

-- The type without the marks of an optional parameter and of an array.
pub record ParameterType : Type 0 where
  pub is_optional : Bool
  pub is_array : Bool
  pub par_type : String

abbrev marked_type : Bool → String → ParameterType
marked_type is_optional s =
    if ends_with s "[]"
    then (record { is_optional = is_optional; is_array = true; par_type = without_end 2 s })
    else record { is_optional = is_optional; is_array = false; par_type = s }

unfoldable pub parameter_type : String → ParameterType
unfolding take ends_with
parameter_type s =
    if ends_with s "?" then marked_type true (without_end 1 s) else marked_type false s

-- `isinstance(v, list)`
abbrev is_list : Value → Bool
is_list (list vs) = true
is_list _ = false

-- `sep.join(texts)`
abbrev pub join_texts : String → List String → String
join_texts sep [] = ""
join_texts sep (w ∷ []) = w
join_texts sep (w ∷ v ∷ ws) = w ++ (sep ++ join_texts sep (v ∷ ws))

abbrev texts_of : List Value → Outcome (List String)
texts_of [] = ok []
texts_of (str s ∷ vs) = texts_of vs >>= λ rest. ok (s ∷ rest)
texts_of (_ ∷ vs) = raised type_error

abbrev pub paths_of : List Value → Outcome (List Value)
paths_of [] = ok []
paths_of (v ∷ vs) = do path ← get_item "path" v; rest ← paths_of vs; ok (path ∷ rest)

-- `[item_separator.join(value)]`, if there is one.
abbrev separated : Value → List Value → Outcome (List Value)
separated item_separator values =
    if truth item_separator
    then (do
      sep ← as_str item_separator
      texts ← texts_of values
      ok (str (join_texts sep texts) ∷ []))
    else ok values

-- Python's `str` on values that are no texts, and its `int`.
module _ (show : Value → String) (to_int : Value → Outcome ℤ) where
  abbrev to_str : Value → String
  to_str (str s) = s
  to_str v = show v

  -- The values that become arguments.
  abbrev argument_values : ParameterType → Value → Value → Outcome (List Value)
  argument_values t item_separator value =
      let is_file = str_eq t.par_type "File" in
      if t.is_array
      then (do
        values ← iterate value
        texts ← if is_file then paths_of values else ok (map (λ v. str (to_str v)) values)
        separated item_separator texts)
      else if is_file
      then paths_of (value ∷ [])
      else ok (value ∷ [])

  -- `prefix + str(val)`
  abbrev prefixed : Value → Value → Outcome Value
  prefixed (str prefix) val = ok (str (prefix ++ to_str val))
  prefixed _ val = raised type_error

  abbrev pub with_prefix : Value → Bool → List Value → Outcome (List Value)
  with_prefix prefix separate [] = ok []
  with_prefix prefix separate (val ∷ vals) = do
    rest ← with_prefix prefix separate vals
    if truth prefix
        then (if separate
            then ok (prefix ∷ str (to_str val) ∷ rest)
            else (prefixed prefix val >>= λ arg. ok (arg ∷ rest)))
        else ok (str (to_str val) ∷ rest)

  abbrev is_separate : Value → Outcome Bool
  is_separate binding = do
    has_separate ← is_in "separate" binding
    if not has_separate then ok true else do v ← get_item "separate" binding; ok (truth v)

  abbrev bound_argument : ParameterType → Value → Value → Outcome Argument
  bound_argument t binding value = do
    separate ← is_separate binding
    item_separator ← get "itemSeparator" binding
    prefix ← get "prefix" binding
    values ← argument_values t item_separator value
    arg ← with_prefix prefix separate values
    has_position ← is_in "position" binding
    if has_position
        then (do
          v ← get_item "position" binding
          position ← to_int v
          ok (record { position = position; items = arg }))
        else ok (record { position = pos 0; items = arg })

  -- `input_dict[par_id]`, or else the default.
  abbrev input_value : Value → Value → Value → Outcome Value
  input_value default par_id input_dict = do
    given ← is_key par_id input_dict
    if given then (do key ← as_str par_id; get_item key input_dict) else ok default

  unfoldable pub create_argument : Value → Value → Outcome Argument
  unfolding parameter_type is_in get_item get is_key
  create_argument input_dict parameter = do
    has_id ← is_in "id" parameter
    if not has_id then exit_perm_fail else do
      par_id ← get_item "id" parameter
      type_value ← get "type" parameter
      type_text ← as_str type_value
      default ← get "default" parameter
      value ← input_value default par_id input_dict
      let t = parameter_type type_text
      if not t.is_optional && is_none value
          then exit_perm_fail
          else if t.is_array && not (is_list value)
          then exit_perm_fail
          else (do
            is_bound ← is_in "inputBinding" parameter
            if is_bound && not (is_none value)
                then (do
                  binding ← get_item "inputBinding" parameter
                  bound_argument t binding value)
                else ok (record { position = pos 0; items = [] }))

  unfoldable pub create_arguments : Value → List Value → Outcome (List Argument)
  unfolding create_argument
  create_arguments input_dict [] = ok []
  create_arguments input_dict (parameter ∷ parameters) = do
    arg ← create_argument input_dict parameter
    args ← create_arguments input_dict parameters
    ok (arg ∷ args)

-- `args.sort(key=lambda arg: arg[0])`, which keeps the order of arguments with equal keys.
abbrev pub insert_argument : Argument → List Argument → List Argument
insert_argument arg [] = arg ∷ []
insert_argument arg (a ∷ args) =
    let later = insert_argument arg args in
    if ltb_ℤ a.position arg.position then a ∷ later else arg ∷ a ∷ args

unfoldable pub sort_arguments : List Argument → List Argument
sort_arguments [] = []
sort_arguments (arg ∷ args) = insert_argument arg (sort_arguments args)

abbrev pub flatten : List Argument → List Value
flatten [] = []
flatten (arg ∷ args) = append_list arg.items (flatten args)

abbrev pub check_texts : List Value → Outcome Unit
check_texts [] = ok tt
check_texts (str s ∷ vs) = check_texts vs
check_texts (_ ∷ vs) = exit_system_error

abbrev pub fixed_arguments : Value → Outcome (List Argument)
fixed_arguments clt_desc = do
  has_arguments ← is_in "arguments" clt_desc
  if not has_arguments then ok [] else do
    v ← get_item "arguments" clt_desc
    arguments ← iterate v
    checked ← check_texts arguments
    ok (record { position = negsuc 0; items = arguments } ∷ [])

unfoldable pub create_command_line :
    (Value → String) → (Value → Outcome ℤ) → Value → Value → Outcome (List Value)
unfolding create_arguments sort_arguments is_in get_item
create_command_line show to_int clt_desc input_dict = do
  fixed ← fixed_arguments clt_desc
  inputs ← get_item "inputs" clt_desc
  parameters ← iterate inputs
  args ← create_arguments show to_int input_dict parameters
  ok (flatten (sort_arguments (append_list fixed args)))
