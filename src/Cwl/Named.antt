-- ===== src/Cwl/Named.antt =====
-- `get_files_from_binding` of cerise/back_end/cwl.py: the files of a whole binding.
use simple_cwl_xenon_service.Prelude.{
  ℕ, subst, sym, ◌≡◌, refl, inl, inr, String, Option, none, some, List, ◌++◌, arith,
}
use simple_cwl_xenon_service.Exception.{ok, Returns, Returns-bind, Returns-ok}
use simple_cwl_xenon_service.Value.{Value, null, list, dict, Items, Entries, no_entries, dict_entry}
use simple_cwl_xenon_service.Cwl.Files.{
  File, file, binding_file, binding_items, binding_entry, binding_fields, get_files_from_binding,
}
use simple_cwl_xenon_service.Cwl.Bindings.{
  AllFiles, AnyFile, AllFiles-append, AllFiles-map, AnyFile-left, AnyFile-right, ItemAt, FileAt,
  Says, Describes, IsNamed,
}
use simple_cwl_xenon_service.Cwl.Listed.{
  Found, FileFound, binding_file-FileFound, zero_add, FoundAt, ItemsFound, Returns-weaken,
  binding_items-ItemsFound,
}

-- A file that `binding_entry` finds.
abbrev FoundIn : String → Value → File → Type 0
FoundIn name v (file n index location source secondary) = (n ≡ some name) × FileAt v index location

abbrev EntryFound : String → Value → List File → Type 0
EntryFound name v files =
    AllFiles (FoundIn name v) files
    × ((index : Option ℕ) (location : Value)
        → FileAt v index location
        → AnyFile (IsNamed name index location) files)

Found-FoundIn :
    (name : String) (fs : Entries) (f : File) → Found name none fs f → FoundIn name (dict fs) f
Found-FoundIn name fs (file n none location source secondary) (named, at, h) = (named, h)
Found-FoundIn name fs (file n (some i) location source secondary) (named, at, h) = ground arith

FoundAt-FoundIn :
    (name : String) (vs : Items) (f : File) → FoundAt name 0 vs f → FoundIn name (list vs) f
FoundAt-FoundIn name vs (file n none location source secondary) (i, named, at, h) = ground arith
FoundAt-FoundIn name vs (file n (some j) location source secondary) (i, named, at, h) =
    let same : i ≡ j = ground arith in (named, subst (λ k. ItemAt k location vs) same h)

binding_entry-EntryFound :
    (name : String) (v : Value) → Returns (EntryFound name v) (binding_entry name v)
unfolding binding_entry
binding_entry-EntryFound name (dict fs) =
    Returns-weaken _ _ (binding_file name none fs) (λ files h. found files h)
      (binding_file-FileFound name none fs)
  where
    found : (files : List File) → FileFound name none fs files → EntryFound name (dict fs) files
    found files h = (AllFiles-map _ _ files (Found-FoundIn name fs) h.0, by_place)
      where
        by_place :
            (index : Option ℕ) (location : Value)
            → FileAt (dict fs) index location
            → AnyFile (IsNamed name index location) files
        by_place none location e = h.1 location e
        by_place (some i) location e = absurd e
binding_entry-EntryFound name (list vs) =
    Returns-weaken _ _ (binding_items name 0 vs) (λ files h. found files h)
      (binding_items-ItemsFound name 0 vs)
  where
    found : (files : List File) → ItemsFound name 0 vs files → EntryFound name (list vs) files
    found files h = (AllFiles-map _ _ files (FoundAt-FoundIn name vs) h.0, by_place)
      where
        by_place :
            (index : Option ℕ) (location : Value)
            → FileAt (list vs) index location
            → AnyFile (IsNamed name index location) files
        by_place none location e = absurd e
        by_place (some i) location e = rw (zero_add i) (h.1 i location e)
binding_entry-EntryFound name null = (tt, λ i l e. absurd e)
binding_entry-EntryFound name v = (tt, λ i l e. absurd e)

-- What `binding_fields` finds.
abbrev FieldsFound : Entries → List File → Type 0
FieldsFound binding files =
    AllFiles (Describes binding) files
    × ((name : String) (index : Option ℕ) (location : Value)
        → Says binding name index location
        → AnyFile (IsNamed name index location) files)

Describes-first :
    (k : String) (v : Value) (binding : Entries) (f : File)
    → FoundIn k v f
    → Describes (dict_entry k v binding) f
Describes-first k v binding (file n index location source secondary) (named, at) =
    (k, named, (v, inl (refl, refl), at))

Describes-later :
    (k : String) (v : Value) (binding : Entries) (f : File)
    → Describes binding f
    → Describes (dict_entry k v binding) f
Describes-later k v binding (file n index location source secondary) (name, named, (w, e, at)) =
    (name, named, (w, inr e, at))

joined-FieldsFound :
    (k : String) (v : Value) (binding : Entries) (here rest : List File)
    → EntryFound k v here
    → FieldsFound binding rest
    → FieldsFound (dict_entry k v binding) (here ++ rest)
joined-FieldsFound k v binding here rest h r = (
  AllFiles-append _ here rest (AllFiles-map _ _ here (Describes-first k v binding) h.0)
      (AllFiles-map _ _ rest (Describes-later k v binding) r.0),
  by_name,
)
  where
    by_name :
        (name : String) (index : Option ℕ) (location : Value)
        → Says (dict_entry k v binding) name index location
        → AnyFile (IsNamed name index location) (here ++ rest)
    by_name name index location (w, inl (named, same), at) = AnyFile-left _ here rest (
        subst (λ n. AnyFile (IsNamed n index location) here) named
          (h.1 index location (subst (λ u. FileAt u index location) (sym same) at)))
    by_name name index location (w, inr later, at) =
        AnyFile-right _ here rest (r.1 name index location (w, later, at))

binding_fields-FieldsFound :
    (binding : Entries) → Returns (FieldsFound binding) (binding_fields binding)
unfolding binding_fields
binding_fields-FieldsFound no_entries = (tt, λ name i l e. absurd e.1)
binding_fields-FieldsFound (dict_entry k v binding) =
    Returns-bind _ (EntryFound k v) (binding_entry k v) _ (binding_entry-EntryFound k v) λ here h.
      Returns-bind _ (FieldsFound binding) (binding_fields binding) _
        (binding_fields-FieldsFound binding) λ rest r. joined-FieldsFound k v binding here rest h r

-- When `get_files_from_binding` returns, each file it returns has its name, place and location
-- from the binding, and each File object that the binding has, at a name or in a list at a name,
-- is among them with that name, place and location.
pub get_files_from_binding-Says :
    (binding : Entries) (files : List File) (name : String) (index : Option ℕ) (location : Value)
    → get_files_from_binding (dict binding) ≡ ok files
    → Says binding name index location
    → AllFiles (Describes binding) files × AnyFile (IsNamed name index location) files
unfolding get_files_from_binding
get_files_from_binding-Says binding files name index location e said =
    let found : FieldsFound binding files =
      Returns-ok _ (binding_fields binding) files (binding_fields-FieldsFound binding) e in
    (found.0, found.1 name index location said)
