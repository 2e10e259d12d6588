-- ===== src/JobPlanner/Bounds.antt =====
-- The maximum and the sum that a plan is made of, against plain recursions.
use simple_cwl_xenon_service.Prelude.{
  ◌≡◌, refl, ◌∙◌, subst, ◌⊎◌, inl, inr, Bool-cases, List, [], ◌∷◌, arith,
}
use simple_cwl_xenon_service.Prelude.Int.{ℤ, ◌≤ℤ◌, ltb_ℤ, max_ℤ, le-max_left, le-max_right}
use simple_cwl_xenon_service.JobPlanner.{max_from, max_list}
use simple_cwl_xenon_service.Exception.{ok}

-- Every element is at most `m`.
abbrev pub AllAtMost : ℤ → List ℤ → Type 0
AllAtMost m [] = Unit
AllAtMost m (n ∷ ns) = (n ≤ℤ m) × AllAtMost m ns

pub AllAtMost-le : (m k : ℤ) (ns : List ℤ) → m ≤ℤ k → AllAtMost m ns → AllAtMost k ns
AllAtMost-le m k [] le h = tt
AllAtMost-le m k (n ∷ ns) le h = (omega (arith, h.0), AllAtMost-le m k ns le h.1)

le-max_from : (m : ℤ) (ns : List ℤ) → m ≤ℤ max_from m ns
unfolding max_from
le-max_from m [] = omega arith
le-max_from m (n ∷ ns) = omega (arith, le-max_left m n, le-max_from (max_ℤ m n) ns)

pub max_from-AllAtMost : (m : ℤ) (ns : List ℤ) → AllAtMost (max_from m ns) ns
unfolding max_from
max_from-AllAtMost m [] = tt
max_from-AllAtMost m (n ∷ ns) =
    (omega (arith, le-max_right m n, le-max_from (max_ℤ m n) ns), max_from-AllAtMost (max_ℤ m n) ns)

-- The number is an element of the list.
abbrev pub IsIn : ℤ → List ℤ → Type 0
IsIn m [] = ⊥
IsIn m (n ∷ ns) = (m ≡ n) ⊎ IsIn m ns

pub max_ℤ-cases : (a b : ℤ) → (max_ℤ a b ≡ a) ⊎ (max_ℤ a b ≡ b)
unfolding max_ℤ
max_ℤ-cases a b = elim (Bool-cases (ltb_ℤ a b)) [
  | inl e ↦ inr (rw e refl)
  | inr n ↦ inl (rw n refl)
]

max_from-IsIn : (m : ℤ) (ns : List ℤ) → IsIn (max_from m ns) (m ∷ ns)
unfolding max_from
max_from-IsIn m [] = inl refl
max_from-IsIn m (n ∷ ns) = elim (max_from-IsIn (max_ℤ m n) ns) [
  | inl e ↦ elim (max_ℤ-cases m n) [ inl k ↦ inl (e ∙ k) | inr k ↦ inr (inl (e ∙ k)) ]
  | inr h ↦ inr (inr h)
]

-- The number of cores or the time that `max` picks is one of the list's, and none is greater; on an
-- empty list `max` raises.
pub max_list_lem : (ns : List ℤ) (m : ℤ) → max_list ns ≡ ok m → AllAtMost m ns × IsIn m ns
unfolding max_list
max_list_lem [] m h = ground arith
max_list_lem (n ∷ ns) m h =
    let e = ok_inj (max_from n ns) m h in
    subst (λ v. AllAtMost v (n ∷ ns) × IsIn v (n ∷ ns)) e
      ((le-max_from n ns, max_from-AllAtMost n ns), max_from-IsIn n ns)
  where
    ok_inj : (a b : ℤ) → ok a ≡ ok b → a ≡ b
    ok_inj a b e = cc e
