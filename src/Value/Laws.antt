-- ===== src/Value/Laws.antt =====
-- Laws of dictionaries.
use mathlib.Core.Option.{some-injective}
use simple_cwl_xenon_service.Prelude.{ap, Option, none}
use simple_cwl_xenon_service.Exception.{or_raise, key_error}
use simple_cwl_xenon_service.Value.{is_in}
use text.Mathlib.TextEquality.{eq_iff}
use text.Mathlib.Text.{◌==◌ as str_eq}
use simple_cwl_xenon_service.Prelude.{
  ◌≡◌, refl, subst, String, true, false, some, inl, inr, Bool-cases, arith,
}
use simple_cwl_xenon_service.Exception.{ok, ok-injective}
use simple_cwl_xenon_service.Value.{
  Value, dict, Entries, no_entries, dict_entry, lookup, get_item, set_entry, set_item,
}

str_eq_refl : (s : String) → str_eq s s ≡ true
str_eq_refl s = (eq_iff s s).1 refl

pub lookup-set_entry :
    (key : String) (v : Value) (fs : Entries) → lookup key (set_entry key v fs) ≡ some v
unfolding lookup set_entry
lookup-set_entry key v no_entries = rw (str_eq_refl key) refl
lookup-set_entry key v (dict_entry k old fs) = elim (Bool-cases (str_eq k key)) [
  | inl e ↦ rw (e, e) refl
  | inr e ↦ rw (e, e) (lookup-set_entry key v fs)
]

pub get_item-set_item :
    (key : String) (v d d' : Value) → set_item key v d ≡ ok d' → get_item key d' ≡ ok v
unfolding set_item get_item
get_item-set_item key v (dict fs) d' e =
    subst (λ x. get_item key x ≡ ok v) (ok-injective _ d' e) (rw (lookup-set_entry key v fs) refl)
get_item-set_item key v _ d' e = ground arith

pub lookup-set_entry_ne :
    (key other : String) (v : Value) (fs : Entries)
    → str_eq other key ≡ false
    → lookup key (set_entry other v fs) ≡ lookup key fs
unfolding lookup set_entry
lookup-set_entry_ne key other v no_entries ne = rw ne refl
lookup-set_entry_ne key other v (dict_entry k old fs) ne = elim (Bool-cases (str_eq k other)) [
  | inl e ↦ rw (e, (eq_iff k other).0 e, ne) refl
  | inr e ↦ rw (e, lookup-set_entry_ne key other v fs ne) refl
]

-- An entry that is there stays when it is set again.
set_entry-lookup :
    (key : String) (v : Value) (fs : Entries) → lookup key fs ≡ some v → set_entry key v fs ≡ fs
unfolding lookup set_entry
set_entry-lookup key v no_entries h = ground arith
set_entry-lookup key v (dict_entry k old fs) h = elim (Bool-cases (str_eq k key)) [
  | inl e ↦ rw (e, some-injective old v (rw e at h)) refl
  | inr e ↦ rw e (ap (dict_entry k old) (set_entry-lookup key v fs (rw e at h)))
]

found-lookup :
    (key : String) (v : Value) (o : Option Value) → or_raise o key_error ≡ ok v → o ≡ some v
found-lookup key v none h = ground arith
found-lookup key v (some x) h = ap some (ok-injective x v h)

pub set_item-get_item :
    (key : String) (v d : Value) → get_item key d ≡ ok v → set_item key v d ≡ ok d
unfolding get_item set_item
set_item-get_item key v (dict fs) h =
    ap (λ x. ok (dict x)) (set_entry-lookup key v fs (found-lookup key v (lookup key fs) h))
set_item-get_item key v _ h = ground arith

pub is_in-get_item : (key : String) (v d : Value) → get_item key d ≡ ok v → is_in key d ≡ ok true
unfolding get_item is_in
is_in-get_item key v (dict fs) h = rw (found-lookup key v (lookup key fs) h) refl
is_in-get_item key v _ h = ground arith

pub get_item-set_item_ne :
    (key other : String) (v d d' : Value)
    → str_eq other key ≡ false
    → set_item other v d ≡ ok d'
    → get_item key d' ≡ get_item key d
unfolding get_item set_item
get_item-set_item_ne key other v (dict fs) d' ne h =
    subst (λ x. get_item key x ≡ get_item key (dict fs)) (ok-injective _ d' h)
      (rw (lookup-set_entry_ne key other v fs ne) refl)
get_item-set_item_ne key other v _ d' ne h = ground arith
