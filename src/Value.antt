-- ===== src/Value.antt =====
-- The values that `yaml.safe_load` and `json.loads` make, and the operations of Python on them that
-- the code uses. Keys are texts, and floating-point numbers are left out.
pub mod Laws
use text.Mathlib.Text.{◌==◌ as str_eq, find?}
use simple_cwl_xenon_service.Prelude.{
  ℕ, zero, suc, String, Bool, true, false, ◌||◌, Option, none, some, if◌then◌else◌, is_some, not,
  List, [], ◌∷◌,
}
use simple_cwl_xenon_service.Text.{is_empty}
use simple_cwl_xenon_service.Prelude.Int.{ℤ, pos}
use simple_cwl_xenon_service.Exception.{
  Outcome, ok, raised, or_raise, type_error, key_error, attribute_error, index_error,
}

mutual
  pub data Value : Type 0 where
    null : Value
    bool : Bool → Value
    str : String → Value
    dict : Entries → Value
    list : Items → Value
    int : ℤ → Value

  -- The entries of a dictionary, in their order.
  pub data Entries : Type 0 where
    no_entries : Entries
    dict_entry : (key : String) → (value : Value) → (rest : Entries) → Entries

  -- The items of a list.
  pub data Items : Type 0 where
    no_items : Items
    item : (head : Value) → (rest : Items) → Items

-- `needle in hay` on texts.
unfoldable pub contains : String → String → Bool
contains needle hay = is_some (find? hay needle)

-- `v == text`
abbrev pub is_text : String → Value → Bool
is_text text (str s) = str_eq s text
is_text text _ = false

unfoldable pub lookup : String → Entries → Option Value
lookup key no_entries = none
lookup key (dict_entry k v fs) = if str_eq k key then some v else lookup key fs

unfoldable pub has_item : String → Items → Bool
has_item text no_items = false
has_item text (item v vs) = is_text text v || has_item text vs

-- `key in v`
unfoldable pub is_in : String → Value → Outcome Bool
unfolding lookup has_item contains
is_in key (dict fs) = ok (is_some (lookup key fs))
is_in key (list vs) = ok (has_item key vs)
is_in key (str s) = ok (contains key s)
is_in key _ = raised type_error

-- `v[key]`
unfoldable pub get_item : String → Value → Outcome Value
unfolding lookup
get_item key (dict fs) = or_raise (lookup key fs) key_error
get_item key _ = raised type_error

-- `v.get(key)`, with `null` for a missing key.
abbrev pub or_null : Option Value → Value
or_null none = null
or_null (some v) = v

unfoldable pub get : String → Value → Outcome Value
unfolding lookup
get key (dict fs) = ok (or_null (lookup key fs))
get key _ = raised attribute_error

-- `v is None`
abbrev pub is_none : Value → Bool
is_none null = true
is_none _ = false

-- A number in arithmetic and comparisons, where a bool counts as 0 or 1.
abbrev pub as_int : Value → Outcome ℤ
as_int (int n) = ok n
as_int (bool true) = ok (pos 1)
as_int (bool false) = ok (pos 0)
as_int _ = raised type_error

unfoldable pub set_entry : String → Value → Entries → Entries
set_entry key v no_entries = dict_entry key v no_entries
set_entry key v (dict_entry k old fs) =
    if str_eq k key then dict_entry k v fs else dict_entry k old (set_entry key v fs)

-- `d[key] = v`
unfoldable pub set_item : String → Value → Value → Outcome Value
unfolding set_entry
set_item key v (dict fs) = ok (dict (set_entry key v fs))
set_item key v _ = raised type_error

unfoldable pub nth : ℕ → Items → Option Value
nth i no_items = none
nth zero (item v vs) = some v
nth (suc i) (item v vs) = nth i vs

-- `l[i]`
unfoldable pub get_index : ℕ → Value → Outcome Value
unfolding nth
get_index i (list vs) = or_raise (nth i vs) index_error
get_index i (str s) = raised type_error
get_index i (dict fs) = raised key_error
get_index i _ = raised type_error

unfoldable pub set_nth : ℕ → Value → Items → Items
set_nth i v no_items = no_items
set_nth zero v (item old vs) = item v vs
set_nth (suc i) v (item old vs) = item old (set_nth i v vs)

-- `l[i] = v` for an index that is in the list.
unfoldable pub set_index : ℕ → Value → Value → Value
unfolding set_nth
set_index i v (list vs) = list (set_nth i v vs)
set_index i v other = other

-- `bool(v)`
abbrev pub truth : Value → Bool
truth null = false
truth (bool b) = b
truth (str s) = not (is_empty s)
truth (dict no_entries) = false
truth (dict _) = true
truth (list no_items) = false
truth (list _) = true
truth (int (pos zero)) = false
truth (int _) = true

-- `v in d` for a dictionary d: a list or a dictionary cannot be hashed.
unfoldable pub is_key : Value → Value → Outcome Bool
unfolding is_in
is_key (str key) d = is_in key d
is_key (list vs) d = raised type_error
is_key (dict fs) d = raised type_error
is_key _ d = ok false

abbrev pub items_of : Items → List Value
items_of no_items = []
items_of (item v vs) = v ∷ items_of vs

abbrev pub list_of : List Value → Items
list_of [] = no_items
list_of (v ∷ vs) = item v (list_of vs)

abbrev pub keys : Entries → List Value
keys no_entries = []
keys (dict_entry k v fs) = str k ∷ keys fs

abbrev pub characters : String → List Value
characters String.[] = []
characters (String.◌∷◌ c s) = str (String.◌∷◌ c String.[]) ∷ characters s

-- `for x in v`
abbrev pub iterate : Value → Outcome (List Value)
iterate (list vs) = ok (items_of vs)
iterate (dict fs) = ok (keys fs)
iterate (str s) = ok (characters s)
iterate _ = raised type_error
