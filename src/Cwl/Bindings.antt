-- ===== src/Cwl/Bindings.antt =====
-- What a binding says of its files, read off the binding itself and not the loops of
-- `get_files_from_binding` in cerise/back_end/cwl.py.
use simple_cwl_xenon_service.Prelude.{
  ℕ, ◌≡◌, ◌⊎◌, inl, inr, String, true, Option, none, some, List, [], ◌∷◌, ◌++◌,
}
use simple_cwl_xenon_service.Exception.{ok}
use simple_cwl_xenon_service.Value.{
  Value, list, dict, Items, Entries, no_entries, dict_entry, nth, get_item,
}
use simple_cwl_xenon_service.Cwl.Files.{File, file, has_class}

abbrev pub AllFiles : (File → Type 0) → List File → Type 0
AllFiles P [] = Unit
AllFiles P (f ∷ fs) = P f × AllFiles P fs

abbrev pub AnyFile : (File → Type 0) → List File → Type 0
AnyFile P [] = ⊥
AnyFile P (f ∷ fs) = P f ⊎ AnyFile P fs

pub AllFiles-append :
    (P : File → Type 0) (xs ys : List File) → AllFiles P xs → AllFiles P ys → AllFiles P (xs ++ ys)
AllFiles-append P [] ys h k = k
AllFiles-append P (x ∷ xs) ys h k = (h.0, AllFiles-append P xs ys h.1 k)

pub AllFiles-map :
    (P Q : File → Type 0) (xs : List File)
    → ((f : File) → P f → Q f)
    → AllFiles P xs
    → AllFiles Q xs
AllFiles-map P Q [] f h = tt
AllFiles-map P Q (x ∷ xs) f h = (f x h.0, AllFiles-map P Q xs f h.1)

pub AnyFile-left : (P : File → Type 0) (xs ys : List File) → AnyFile P xs → AnyFile P (xs ++ ys)
AnyFile-left P [] ys h = absurd h
AnyFile-left P (x ∷ xs) ys (inl h) = inl h
AnyFile-left P (x ∷ xs) ys (inr h) = inr (AnyFile-left P xs ys h)

pub AnyFile-right : (P : File → Type 0) (xs ys : List File) → AnyFile P ys → AnyFile P (xs ++ ys)
AnyFile-right P [] ys h = h
AnyFile-right P (x ∷ xs) ys h = inr (AnyFile-right P xs ys h)

-- The dictionary has an entry with this name and value.
abbrev pub EntryIn : String → Value → Entries → Type 0
EntryIn name v no_entries = ⊥
EntryIn name v (dict_entry k w rest) = ((k ≡ name) × (w ≡ v)) ⊎ EntryIn name v rest

-- The dictionary is a File object with this location.
abbrev pub IsFile : Value → Entries → Type 0
IsFile location fs = (has_class "File" fs ≡ true) × (get_item "location" (dict fs) ≡ ok location)

-- A File object of a list, by its place.
abbrev pub ItemAt : ℕ → Value → Items → Type 0
ItemAt i location vs = (fs : Entries) × (nth i vs ≡ some (dict fs)) × IsFile location fs

-- A value of a binding holds this file: it is the file (`none`), or a list that has it at a place.
abbrev pub FileAt : Value → Option ℕ → Value → Type 0
FileAt (dict fs) none location = IsFile location fs
FileAt (list vs) (some i) location = ItemAt i location vs
FileAt _ _ location = ⊥

-- The binding has a File object with this location at this name, and this place in a list.
abbrev pub Says : Entries → String → Option ℕ → Value → Type 0
Says binding name index location = (v : Value) × EntryIn name v binding × FileAt v index location

-- The file has its name, place and location from the binding.
abbrev pub Describes : Entries → File → Type 0
Describes binding (file n index location source secondary) =
    (name : String) × (n ≡ some name) × Says binding name index location

-- The file of this name, place and location.
abbrev pub IsNamed : String → Option ℕ → Value → File → Type 0
IsNamed name index location (file n i l source secondary) =
    (n ≡ some name) × (i ≡ index) × (l ≡ location)
