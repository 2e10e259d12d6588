-- ===== src/Text/Laws.antt =====
-- Laws of the operations on texts.
use Prim.Native.Char.{Char, code}
use text.Mathlib.TextEquality.{Char-path}
use text.Mathlib.TextLemmas.{nil-append, cons-append}
use simple_cwl_xenon_service.Prelude.{
  ℕ, ◌≡◌, refl, ◌∙◌, ap, String, Bool, true, false, inl, inr, Bool-cases, List, [], ◌∷◌, ◌==◌,
  ==_iff, if◌then◌else◌,
}
use simple_cwl_xenon_service.Text.{push, split, join}

join-push : (sep c : Char) (ws : List String) → join sep (push c ws) ≡ String.◌∷◌ c (join sep ws)
unfolding join
join-push sep c [] = refl
join-push sep c (w ∷ []) = refl
join-push sep c (w ∷ v ∷ ws) = cons-append c w _

join-nil :
    (sep : Char) (w : String) (ws : List String)
    → join sep (String.[] ∷ w ∷ ws) ≡ String.◌∷◌ sep (join sep (w ∷ ws))
unfolding join
join-nil sep w ws = nil-append _

-- A text has at least one part.
split-cons : (sep : ℕ) (s : String) → (w : String) × (ws : List String) × (split sep s ≡ w ∷ ws)
unfolding split
split-cons sep String.[] = (String.[], [], refl)
split-cons sep (String.◌∷◌ c s) = by_test (code c == sep) (split-cons sep s)
  where
    by_test :
        (b : Bool)
        → (w : String) × (ws : List String) × (split sep s ≡ w ∷ ws)
        → (w : String) × (ws : List String) × ((if b
              then String.[] ∷ split sep s
              else push c (split sep s))
            ≡ w ∷ ws)
    by_test true (w, ws, e) = (String.[], split sep s, refl)
    by_test false (w, ws, e) = (String.◌∷◌ c w, ws, rw e refl)

join-split_sep :
    (sep c : Char) (s : String)
    → (code c == code sep) ≡ true
    → join sep (split (code sep) s) ≡ s
    → join sep (String.[] ∷ split (code sep) s) ≡ String.◌∷◌ c s
join-split_sep sep c s e ih =
    let (w, ws, parts) = split-cons (code sep) s in
    rw parts (
      join-nil sep w ws
      ∙ rw (Char-path c sep ((==_iff (code c) (code sep)).0 e))
          (ap (String.◌∷◌ sep) (rw (← parts) ih)))

-- Joining the parts of a text by the separator gives the text back.
pub join-split : (sep : Char) (s : String) → join sep (split (code sep) s) ≡ s
unfolding split
join-split sep String.[] = unfold join in refl
join-split sep (String.◌∷◌ c s) = elim (Bool-cases (code c == code sep)) [
  | inl e ↦ rw e (join-split_sep sep c s e (join-split sep s))
  | inr n ↦ rw n (join-push sep c (split (code sep) s) ∙ ap (String.◌∷◌ c) (join-split sep s))
]
