-- ===== src/Cwl/Listed.antt =====
-- `get_files_from_binding` of cerise/back_end/cwl.py: the files of one value, and of a list.
use simple_cwl_xenon_service.Prelude.{
  ℕ, zero, subst, sym, suc, ◌+◌, ◌≡◌, refl, ap, ◌∙◌, inl, inr, String, Option, some, List, ◌++◌,
  Bool-cases, arith,
}
use simple_cwl_xenon_service.Exception.{
  Outcome, ok, raised, Returns, Returns-bind, Returns-after, ok-injective, ok-Returns,
}
use simple_cwl_xenon_service.Value.{
  Value, null, dict, Items, no_items, item, Entries, nth, get_item,
}
use simple_cwl_xenon_service.Cwl.Files.{
  File, file, has_class, secondary_fields, binding_file, binding_items,
}
use simple_cwl_xenon_service.Cwl.Bindings.{
  AllFiles, AnyFile, AllFiles-append, AllFiles-map, AnyFile-left, AnyFile-right, IsFile, ItemAt,
  IsNamed,
}

-- A file that `binding_file` finds.
abbrev pub Found : String → Option ℕ → Entries → File → Type 0
Found name index fs (file n i location source secondary) =
    (n ≡ some name) × (i ≡ index) × IsFile location fs

abbrev pub FileFound : String → Option ℕ → Entries → List File → Type 0
FileFound name index fs files =
    AllFiles (Found name index fs) files
    × ((location : Value) → IsFile location fs → AnyFile (IsNamed name index location) files)

pub same_result : {A : Type 0} (m : Outcome A) (a b : A) → m ≡ ok a → m ≡ ok b → a ≡ b
same_result m a b e h = ok-injective a b (sym e ∙ h)

pub binding_file-FileFound :
    (name : String) (index : Option ℕ) (fs : Entries)
    → Returns (FileFound name index fs) (binding_file name index fs)
unfolding binding_file
binding_file-FileFound name index fs =
    let P : List File → Type 0 = FileFound name index fs in
    elim (Bool-cases (has_class "File" fs)) [
      | inl e ↦ rw e (
          Returns-after P (secondary_fields fs) _ λ secondary.
            Returns-bind P (λ location. get_item "location" (dict fs) ≡ ok location)
              (get_item "location" (dict fs)) _ (ok-Returns _ _ (λ location h. h))
              λ location h. (
                ((refl, refl, (e, h)), tt),
                λ l c.
                    let same : location ≡ l =
                      same_result (get_item "location" (dict fs)) location l h c.1 in
                    inl (refl, refl, same),
              ))
      | inr n ↦ rw n (elim (Bool-cases (has_class "Directory" fs)) [
        | inl d ↦ rw d tt
        | inr d ↦ rw d (tt, λ l c. ground (arith, c.0))
      ])
    ]

pub zero_add : (i : ℕ) → i ≡ 0 + i
zero_add i = omega arith

pub first_place : (start : ℕ) → start ≡ start + 0
first_place start = omega arith

pub next_place : (start i : ℕ) → suc start + i ≡ start + suc i
next_place start i = omega arith

-- A file that `binding_items` finds in the rest of a list from the place `start` on.
abbrev pub FoundAt : String → ℕ → Items → File → Type 0
FoundAt name start vs (file n index location source secondary) =
    (i : ℕ) × (n ≡ some name) × (index ≡ some (start + i)) × ItemAt i location vs

abbrev pub ItemsFound : String → ℕ → Items → List File → Type 0
ItemsFound name start vs files =
    AllFiles (FoundAt name start vs) files
    × ((i : ℕ) (location : Value)
        → ItemAt i location vs
        → AnyFile (IsNamed name (some (start + i)) location) files)

pub later-FoundAt :
    (name : String) (start : ℕ) (v : Value) (vs : Items) (f : File)
    → FoundAt name (suc start) vs f
    → FoundAt name start (item v vs) f
unfolding nth
later-FoundAt name start v vs (file n index location source secondary) (i, named, at, found) =
    (suc i, named, at ∙ ap some (next_place start i), found)

pub first-FoundAt :
    (name : String) (start : ℕ) (fs : Entries) (vs : Items) (f : File)
    → Found name (some start) fs f
    → FoundAt name start (item (dict fs) vs) f
unfolding nth
first-FoundAt name start fs vs (file n index location source secondary) (named, at, found) =
    (0, named, at ∙ ap some (first_place start), (fs, refl, found))

-- The items after one that is no dictionary.
pub skipped :
    (name : String) (start : ℕ) (v : Value) (vs : Items) (files : List File)
    → ((fs : Entries) → v ≡ dict fs → ⊥)
    → ItemsFound name (suc start) vs files
    → ItemsFound name start (item v vs) files
unfolding nth
skipped name start v vs files other (sound, complete) =
    (AllFiles-map _ _ files (later-FoundAt name start v vs) sound, by_place)
  where
    by_place :
        (i : ℕ) (location : Value)
        → ItemAt i location (item v vs)
        → AnyFile (IsNamed name (some (start + i)) location) files
    by_place zero location (fs, e, c) = absurd (other fs (cc e))
    by_place (suc i) location found = rw (← next_place start i) (complete i location found)

pub Returns-weaken :
    {A : Type 0} (P Q : A → Type 0) (m : Outcome A)
    → ((a : A) → P a → Q a)
    → Returns P m
    → Returns Q m
Returns-weaken P Q (ok a) f h = f a h
Returns-weaken P Q (raised e) f h = tt

pub no_item : (i : ℕ) (location : Value) → ItemAt i location no_items → ⊥
unfolding nth
no_item zero location (fs, e, h) = cc e
no_item (suc i) location (fs, e, h) = cc e

pub binding_items-ItemsFound :
    (name : String) (start : ℕ) (vs : Items)
    → Returns (ItemsFound name start vs) (binding_items name start vs)
unfolding binding_items nth
binding_items-ItemsFound name start no_items = (tt, λ i location e. no_item i location e)
binding_items-ItemsFound name start (item (dict fs) vs) =
    let P : List File → Type 0 = ItemsFound name start (item (dict fs) vs) in
    Returns-bind P (FileFound name (some start) fs) (binding_file name (some start) fs) _
      (binding_file-FileFound name (some start) fs)
      λ here h.
        Returns-bind P (ItemsFound name (suc start) vs) (binding_items name (suc start) vs) _
          (binding_items-ItemsFound name (suc start) vs) λ rest k. joined here rest h k
  where
    joined :
        (here rest : List File)
        → FileFound name (some start) fs here
        → ItemsFound name (suc start) vs rest
        → ItemsFound name start (item (dict fs) vs) (here ++ rest)
    joined here rest h k = (
      AllFiles-append _ here rest (AllFiles-map _ _ here (first-FoundAt name start fs vs) h.0)
          (AllFiles-map _ _ rest (later-FoundAt name start (dict fs) vs) k.0),
      by_place,
    )
      where
        by_place :
            (i : ℕ) (location : Value)
            → ItemAt i location (item (dict fs) vs)
            → AnyFile (IsNamed name (some (start + i)) location) (here ++ rest)
        by_place zero location (gs, e, c) =
            let same : gs ≡ fs = cc e in
            AnyFile-left _ here rest
              (rw (← first_place start) (h.1 location (subst (IsFile location) same c)))
        by_place (suc i) location found =
            AnyFile-right _ here rest (rw (← next_place start i) (k.1 i location found))
binding_items-ItemsFound name start (item null vs) =
    Returns-weaken _ _ (binding_items name (suc start) vs)
      (λ files. skipped name start null vs files λ fs e. cc e)
      (binding_items-ItemsFound name (suc start) vs)
binding_items-ItemsFound name start (item v vs) =
    Returns-weaken _ _ (binding_items name (suc start) vs)
      (λ files. skipped name start v vs files λ fs e. cc e)
      (binding_items-ItemsFound name (suc start) vs)
