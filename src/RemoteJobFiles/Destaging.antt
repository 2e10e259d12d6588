-- ===== src/RemoteJobFiles/Destaging.antt =====
-- The output files that are copied back.
use Prim.Native.String.{◌++◌, count}
use text.Mathlib.Text.{starts_with}
use text.Mathlib.TextEquality.{starts_with_iff}
use text.Mathlib.TextLemmas.{length-cons, nil-append, cons-append}
use simple_cwl_xenon_service.Prelude.{
  ℕ, ◌≡◌, sym, ap, subst, String, true, some, inl, inr, Bool-cases, List, [], ◌∷◌, arith,
}
use simple_cwl_xenon_service.Exception.{ok, bind-ok, ok-injective}
use simple_cwl_xenon_service.FileSystem.{child}
use simple_cwl_xenon_service.Text.{drop}
use simple_cwl_xenon_service.Value.{str}
use simple_cwl_xenon_service.Cwl.Files.{File, file}
use simple_cwl_xenon_service.World.{Site}
use simple_cwl_xenon_service.RemoteJobFiles.{
  Remote, work_dir, output_prefix, destage_file, destage_files,
}

drop-append : (p r : String) → drop (count p) (p ++ r) ≡ r
unfolding drop
drop-append String.[] r = nil-append r
drop-append (String.◌∷◌ c p) r = rw (length-cons c p, cons-append c p r) (drop-append p r)

-- What starts with a prefix is the prefix with the rest behind it.
prefix-drop : (url p : String) → starts_with url p ≡ true → p ++ drop (count p) url ≡ url
prefix-drop url p h =
    let (rest, whole) = (starts_with_iff url p).0 h in
    subst (λ u. p ++ drop (count p) u ≡ u) whole (ap (λ r. p ++ r) (drop-append p rest))

module _ (site : Site) (remote : Remote) (id : ℕ) where
  -- The location began with the path of the work directory, and is now what followed that.
  abbrev pub IsInside : File → File → Type 0
  IsInside (file name index location source nested) f' =
      (rel : String) × (location ≡ str (output_prefix site remote id ++ rel))
      × (f' ≡ file name index (str rel) (some (child (work_dir site remote id) rel)) nested)

  abbrev pub AllInside : List File → List File → Type 0
  AllInside [] [] = Unit
  AllInside (f ∷ fs) (f' ∷ fs') = IsInside f f' × AllInside fs fs'
  AllInside _ _ = ⊥

  destage_file-IsInside : (f f' : File) → destage_file site remote id f ≡ ok f' → IsInside f f'
  unfolding destage_file
  destage_file-IsInside (file name index (str url) source nested) f' e =
      elim (Bool-cases (starts_with url (output_prefix site remote id))) [
        | inl t ↦ (
          drop (count (output_prefix site remote id)) url,
          ap str (sym (prefix-drop url (output_prefix site remote id) t)),
          sym (ok-injective _ f' (rw t at e)),
        )
        | inr f ↦ ground (arith, rw f at e)
      ]
  destage_file-IsInside (file name index _ source nested) f' e = ground arith

-- If the output files of a job are destaged, then the location of each of them was the path of the work
-- directory of that job, a slash and more text; that text is its location now, and its source is what
-- the text names under the work directory. None is lost and their order is kept. The text is taken as it
-- is: it may have a part `..`, which leads out of the directory.
pub destage_files-AllInside :
    (site : Site) (remote : Remote) (id : ℕ) (fs fs' : List File)
    → destage_files site remote id fs ≡ ok fs'
    → AllInside site remote id fs fs'
unfolding destage_files
destage_files-AllInside site remote id [] fs' e =
    subst (AllInside site remote id []) (ok-injective [] fs' e) tt
destage_files-AllInside site remote id (f ∷ fs) fs' e =
    let (f', one, e₁) = bind-ok (destage_file site remote id f) _ fs' e in
    let (rest, all, e₂) = bind-ok (destage_files site remote id fs) _ fs' e₁ in
    subst (AllInside site remote id (f ∷ fs)) (ok-injective (f' ∷ rest) fs' e₂) (
      destage_file-IsInside site remote id f f' one,
      destage_files-AllInside site remote id fs rest all,
    )
