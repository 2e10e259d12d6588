-- ===== src/Exception.antt =====
-- The exceptions that the modelled code tells apart, and what a call may end with. The class tree is
-- Python's: FileNotFoundError is an OSError (IOError is the same class), and so is the
-- ConnectionError of `requests`; JobNotFound and InvalidJobError are RuntimeErrors. `message` is
-- `str(e)` and `arg` is `e.args[0]`, `none` where `e.args` is empty.
use simple_cwl_xenon_service.Prelude.{
  ap, if◌then◌else◌, subst, ◌≡◌, refl, arith, String, Bool, true, false, Option, none, some,
}

pub data Exn : Type 0 where
  job_not_found invalid_job runtime_error type_error key_error index_error attribute_error : Exn
  plain_exception unbound_local_error programming_error : Exn
  system_exit : (status : String) → Exn
  scanner_error parser_error : Exn
  zero_division_error not_found_404 : Exn
  file_not_found : (message : String) → (arg : Option String) → Exn
  os_error : (message : String) → (arg : Option String) → Exn
  value_error : (arg : Option String) → Exn
  eof_error : (arg : Option String) → Exn
  ssh_exception : (arg : Option String) → Exn

pub data Outcome (A : Type 0) : Type 0 where
  ok : A → Outcome A
  raised : Exn → Outcome A

infixl 5 ◌>>=◌
abbrev pub ◌>>=◌ : {A B : Type 0} → Outcome A → (A → Outcome B) → Outcome B
ok a >>= f = f a
raised e >>= f = raised e

abbrev pub or_raise : {A : Type 0} → Option A → Exn → Outcome A
or_raise none e = raised e
or_raise (some a) e = ok a

-- `isinstance(e, OSError)`
abbrev pub is_os_error : Exn → Bool
is_os_error (file_not_found m a) = true
is_os_error (os_error m a) = true
is_os_error _ = false

-- `e.args[0]`, where the model needs it: IndexError on an exception without arguments.
abbrev pub first_arg : Exn → Outcome String
first_arg (file_not_found m a) = or_raise a index_error
first_arg (os_error m a) = or_raise a index_error
first_arg (value_error a) = or_raise a index_error
first_arg (eof_error a) = or_raise a index_error
first_arg (ssh_exception a) = or_raise a index_error
first_arg _ = ok ""

-- What a sequence that returned went through.
pub bind-ok :
    {A B : Type 0} (m : Outcome A) (f : A → Outcome B) (b : B)
    → (m >>= f) ≡ ok b
    → (a : A) × (m ≡ ok a) × (f a ≡ ok b)
bind-ok (ok a) f b e = (a, refl, e)
bind-ok (raised x) f b e = ground arith

pub ok-injective : {A : Type 0} (a b : A) → ok a ≡ ok b → a ≡ b
ok-injective a b e = ground arith

-- What is returned, if anything is, has the property.
abbrev pub Returns : {A : Type 0} → (A → Type 0) → Outcome A → Type 0
Returns P (ok a) = P a
Returns P (raised e) = Unit

pub Returns-bind :
    {A B : Type 0} (P : B → Type 0) (Q : A → Type 0) (m : Outcome A) (f : A → Outcome B)
    → Returns Q m
    → ((a : A) → Q a → Returns P (f a))
    → Returns P (m >>= f)
Returns-bind P Q (ok a) f h k = k a h
Returns-bind P Q (raised e) f h k = tt

pub Returns-after :
    {A B : Type 0} (P : B → Type 0) (m : Outcome A) (f : A → Outcome B)
    → ((a : A) → Returns P (f a))
    → Returns P (m >>= f)
Returns-after P (ok a) f k = k a
Returns-after P (raised e) f k = tt

pub Returns-if :
    {A : Type 0} (P : A → Type 0) (b : Bool) (x y : Outcome A)
    → Returns P x
    → Returns P y
    → Returns P (if b then x else y)
Returns-if P true x y h k = h
Returns-if P false x y h k = k

pub Returns-ok :
    {A : Type 0} (P : A → Type 0) (m : Outcome A) (a : A) → Returns P m → m ≡ ok a → P a
Returns-ok P (ok b) a h e = subst P (ok-injective b a e) h
Returns-ok P (raised x) a h e = ground arith

pub ok-Returns :
    {A : Type 0} (P : A → Type 0) (m : Outcome A) → ((a : A) → m ≡ ok a → P a) → Returns P m
ok-Returns P (ok a) h = h a refl
ok-Returns P (raised x) h = tt

pub bind-of_ok :
    {A B : Type 0} (m : Outcome A) (f : A → Outcome B) (a : A) → m ≡ ok a → (m >>= f) ≡ f a
bind-of_ok m f a e = ap (λ x. x >>= f) e
