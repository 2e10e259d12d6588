-- ===== src/Cwl/Files.antt =====
-- cerise/back_end/file.py, and `get_secondary_files` and `get_files_from_binding` of
-- cerise/back_end/cwl.py. Each loop is a function on the entries of the list or dictionary it walks.
use Prim.Native.Nat.{ℕ, suc}
use simple_cwl_xenon_service.Prelude.{
  String, Bool, false, Option, none, some, List, [], ◌∷◌, ◌++◌, if◌then◌else◌,
}
use simple_cwl_xenon_service.Exception.{
  Outcome, ok, raised, ◌>>=◌, runtime_error, type_error, attribute_error,
}
use simple_cwl_xenon_service.FileSystem.{FilePath}
use simple_cwl_xenon_service.Value.{
  Value, null, bool, int, str, list, dict, Items, no_items, item, Entries, no_entries, dict_entry,
  is_text, get, get_item,
}
use text.Mathlib.Text.{◌==◌ as str_eq}

-- The class File; `location` is what the document gives, and `source` is not set until the file is
-- resolved.
mutual
  pub data File : Type 0 where
    file :
        (name : Option String)
        → (index : Option ℕ) → (location : Value) → (source : Option FilePath)
        → (secondary_files : Files) → File

  pub data Files : Type 0 where
    no_files : Files
    add_file : File → Files → Files

-- `v.get('class') == c`, where `v` is a dictionary.
abbrev pub has_class : String → Entries → Bool
has_class c fs = elim (get "class" (dict fs)) [ ok v ↦ is_text c v | raised e ↦ false ]

-- A member of a `secondaryFiles` list that is a dictionary, given what its own list parses to.
unfoldable pub secondary_file : Entries → Outcome Files → Outcome File
secondary_file fs nested =
    if has_class "File" fs
    then (do
      sf ← nested
      location ← get_item "location" (dict fs)
      ok (file none none location none sf))
    else raised runtime_error

unfoldable mutual
  unfolding secondary_file

  -- `get_secondary_files` on the value of the attribute: walking a dictionary or a text walks texts,
  -- which the loop passes over.
  pub get_secondary_files : Value → Outcome Files
  get_secondary_files (list vs) = secondary_items vs
  get_secondary_files (dict fs) = ok no_files
  get_secondary_files (str s) = ok no_files
  get_secondary_files null = raised type_error
  get_secondary_files (bool b) = raised type_error
  get_secondary_files (int n) = raised type_error

  pub secondary_items : Items → Outcome Files
  secondary_items no_items = ok no_files
  secondary_items (item v vs) = do
    here ← secondary_item v
    rest ← secondary_items vs
    ok (here rest)

  -- What a member adds in front of the files that follow.
  pub secondary_item : Value → Outcome (Files → Files)
  secondary_item (dict fs) = secondary_file fs (secondary_fields fs) >>= λ f. ok (add_file f)
  secondary_item null = ok (λ rest. rest)
  secondary_item (bool b) = ok (λ rest. rest)
  secondary_item (int n) = ok (λ rest. rest)
  secondary_item (str s) = ok (λ rest. rest)
  secondary_item (list vs) = ok (λ rest. rest)

  -- `value.get('secondaryFiles', [])` of a dictionary, parsed.
  pub secondary_fields : Entries → Outcome Files
  secondary_fields no_entries = ok no_files
  secondary_fields (dict_entry k v fs) =
      if str_eq k "secondaryFiles" then get_secondary_files v else secondary_fields fs

-- An entry of the binding, or a member of a list there, that is a dictionary.
unfoldable pub binding_file : String → Option ℕ → Entries → Outcome (List File)
unfolding get_secondary_files
binding_file name index fs =
    if has_class "File" fs
    then (do
      secondary ← secondary_fields fs
      location ← get_item "location" (dict fs)
      ok (file (some name) index location none secondary ∷ []))
    else if has_class "Directory" fs
    then raised runtime_error
    else ok []

-- `for i, val in enumerate(value)`
unfoldable pub binding_items : String → ℕ → Items → Outcome (List File)
unfolding binding_file
binding_items name i no_items = ok []
binding_items name i (item (dict fs) vs) = do
  here ← binding_file name (some i) fs
  rest ← binding_items name (suc i) vs
  ok (here ++ rest)
binding_items name i (item _ vs) = binding_items name (suc i) vs

unfoldable pub binding_entry : String → Value → Outcome (List File)
unfolding binding_file binding_items
binding_entry name (dict fs) = binding_file name none fs
binding_entry name (list vs) = binding_items name 0 vs
binding_entry name _ = ok []

unfoldable pub binding_fields : Entries → Outcome (List File)
unfolding binding_entry
binding_fields no_entries = ok []
binding_fields (dict_entry name value fs) = do
  here ← binding_entry name value
  rest ← binding_fields fs
  ok (here ++ rest)

unfoldable pub get_files_from_binding : Value → Outcome (List File)
unfolding binding_fields
get_files_from_binding null = ok []
get_files_from_binding (dict fs) = binding_fields fs
get_files_from_binding _ = raised attribute_error
