-- ===== src/RemoteApi/Versions.antt =====
-- Which projects `_updatable_projects` finds out of date, by their versions.
use Prim.Native.Nat.{Ordering}
use Prim.Native.String.{compare}
use text.Mathlib.Text.{◌==◌ as str_eq}
use simple_cwl_xenon_service.Prelude.{String, Bool, true, false, ◌||◌, List, [], ◌∷◌}
use simple_cwl_xenon_service.Text.{split, strip}

-- `version_file.read_text().strip().split('.')`
unfoldable pub parse_version : String → List String
unfolding split strip
parse_version content = split b'.' (strip content)

-- `v > w` on lists of texts: the first difference decides, by the order of texts.
unfoldable pub list_gt : List String → List String → Bool
list_gt [] ws = false
list_gt (v ∷ vs) [] = true
list_gt (v ∷ vs) (w ∷ ws) = elim (compare v w) [
  | Ordering.gt ↦ true
  | Ordering.lt ↦ false
  | Ordering.eq ↦ list_gt vs ws
]

-- `v[:3]`
abbrev pub first_three : List String → List String
first_three (a ∷ b ∷ c ∷ _) = a ∷ b ∷ c ∷ []
first_three vs = vs

-- `v[-1] == 'dev'`, of a list that is not empty.
abbrev pub ends_in_dev : List String → Bool
ends_in_dev [] = false
ends_in_dev (v ∷ []) = str_eq v "dev"
ends_in_dev (v ∷ w ∷ vs) = ends_in_dev (w ∷ vs)

unfoldable pub is_outdated : List String → List String → Bool
unfolding list_gt
is_outdated local_version remote_version =
    ends_in_dev local_version || list_gt (first_three local_version) (first_three remote_version)
