-- ===== src/RemoteJobFiles/Bounds.antt =====
-- What the names of staged files look like.
use Prim.Native.Char.{Char, code}
use Prim.Native.String.{◌++◌, count}
use text.Mathlib.TextLemmas.{length-nil, length-cons, length-append, cons-append, nil-append}
use simple_cwl_xenon_service.Prelude.{
  ◌==◌, ℕ, zero, suc, ◌+◌, ◌-◌, ◌/◌, ◌%◌, ◌≤◌, ◌<◌, ◌≡◌, refl, String, Bool, true, false, inl, inr,
  Bool-cases, arith, ltb, if◌then◌else◌,
}
use simple_cwl_xenon_service.Text.{take, drop, digit, decimal_from, decimal, zfill2}
use simple_cwl_xenon_service.RemoteJobFiles.Names.{
  is_allowed, sanitise, abridge, create_input_filename,
}

-- Every character is of the class `[a-zA-Z0-9_.-]`.
abbrev pub AllAllowed : String → Type 0
AllAllowed String.[] = Unit
AllAllowed (String.◌∷◌ c s) = (is_allowed (code c) ≡ true) × AllAllowed s

sanitise-AllAllowed : (in_run : Bool) (s : String) → AllAllowed (sanitise in_run s)
unfolding sanitise
sanitise-AllAllowed in_run String.[] = tt
sanitise-AllAllowed in_run (String.◌∷◌ c s) =
    ground (arith, sanitise-AllAllowed false s, sanitise-AllAllowed true s)

append-AllAllowed : (s t : String) → AllAllowed s → AllAllowed t → AllAllowed (s ++ t)
append-AllAllowed String.[] t h k = rw (nil-append t) k
append-AllAllowed (String.◌∷◌ c s) t h k = rw (cons-append c s t) (h.0, append-AllAllowed s t h.1 k)

take-AllAllowed : (n : ℕ) (s : String) → AllAllowed s → AllAllowed (take n s)
unfolding take
take-AllAllowed zero s h = tt
take-AllAllowed (suc n) String.[] h = tt
take-AllAllowed (suc n) (String.◌∷◌ c s) h = (h.0, take-AllAllowed n s h.1)

drop-AllAllowed : (n : ℕ) (s : String) → AllAllowed s → AllAllowed (drop n s)
unfolding drop
drop-AllAllowed zero s h = h
drop-AllAllowed (suc n) String.[] h = tt
drop-AllAllowed (suc n) (String.◌∷◌ c s) h = drop-AllAllowed n s h.1

count-take : (n : ℕ) (s : String) → count (take n s) ≤ n
unfolding take
count-take zero s = omega (arith, length-nil)
count-take (suc n) String.[] = omega (arith, length-nil)
count-take (suc n) (String.◌∷◌ c s) =
    omega (arith, count-take n s, length-cons c s, length-cons c (take n s))

count-drop : (n : ℕ) (s : String) → count (drop n s) ≡ count s - n
unfolding drop
count-drop zero s = omega arith
count-drop (suc n) String.[] = omega (arith, length-nil)
count-drop (suc n) (String.◌∷◌ c s) = omega (arith, count-drop n s, length-cons c s)

choose-allowed :
    (b : Bool) (c d : Char)
    → is_allowed (code c) ≡ true
    → is_allowed (code d) ≡ true
    → is_allowed (code (if b then c else d)) ≡ true
choose-allowed true c d h k = h
choose-allowed false c d h k = k

digit-allowed : (n : ℕ) → is_allowed (code (digit n)) ≡ true
digit-allowed n = choose-allowed (n == 0) _ _ refl (
    choose-allowed (n == 1) _ _ refl (
      choose-allowed (n == 2) _ _ refl (
        choose-allowed (n == 3) _ _ refl (
          choose-allowed (n == 4) _ _ refl (
            choose-allowed (n == 5) _ _ refl (
              choose-allowed (n == 6) _ _ refl
                (choose-allowed (n == 7) _ _ refl (choose-allowed (n == 8) _ _ refl refl))))))))

digit-AllAllowed : (n : ℕ) (s : String) → AllAllowed s → AllAllowed (String.◌∷◌ (digit n) s)
digit-AllAllowed n s h = (digit-allowed n, h)

decimal_from-AllAllowed :
    (fuel n : ℕ) (rest : String) → AllAllowed rest → AllAllowed (decimal_from fuel n rest)
unfolding decimal_from
decimal_from-AllAllowed zero n rest h = h
decimal_from-AllAllowed (suc fuel) n rest h = elim (Bool-cases (ltb n 10)) [
  | inl e ↦ rw e (digit-AllAllowed n rest h)
  | inr e ↦ rw e (decimal_from-AllAllowed fuel (n / 10) _ (digit-AllAllowed (n % 10) rest h))
]

zfill2-AllAllowed : (s : String) → AllAllowed s → AllAllowed (zfill2 s)
unfolding zfill2
zfill2-AllAllowed s h = elim (Bool-cases (ltb (count s) 2)) [
  | inl e ↦ rw e (elim (Bool-cases (count s == 0)) [
    | inl z ↦ rw z (refl, (refl, tt))
    | inr z ↦ rw z (refl, h)
  ])
  | inr e ↦ rw e h
]

abridge-AllAllowed : (s : String) → AllAllowed s → AllAllowed (abridge s)
abridge-AllAllowed s h =
    append-AllAllowed (take 18 s) _ (take-AllAllowed 18 s h)
      (append-AllAllowed "___" _ (refl, (refl, (refl, tt))) (drop-AllAllowed (count s - 18) s h))

shorten-AllAllowed :
    (s : String) → AllAllowed s → AllAllowed (if ltb 39 (count s) then abridge s else s)
shorten-AllAllowed s h = elim (Bool-cases (ltb 39 (count s))) [
  | inl e ↦ rw e (abridge-AllAllowed s h)
  | inr e ↦ rw e h
]

count-abridge : (s : String) → 39 < count s → count (abridge s) ≤ 39
count-abridge s h = omega (
  arith,
  length-append (take 18 s) ("___" ++ drop (count s - 18) s),
  length-append "___" (drop (count s - 18) s),
  count-take 18 s,
  count-drop (count s - 18) s,
  three,
)
  where
    three : count "___" ≡ 3
    three = refl

count-shorten : (s : String) → count (if ltb 39 (count s) then abridge s else s) ≤ 39
count-shorten s = elim (Bool-cases (ltb 39 (count s))) [
  | inl e ↦ rw e (count-abridge s (ground arith))
  | inr e ↦ rw e (ground arith)
]

name-AllAllowed :
    (prefix orig_path : String)
    → AllAllowed prefix
    → AllAllowed (create_input_filename prefix orig_path)
      × (count (create_input_filename prefix orig_path) ≤ count prefix + 40)
unfolding create_input_filename
name-AllAllowed prefix orig_path h =
    let result = sanitise false orig_path in
    let short = if ltb 39 (count result) then abridge result else result in
    (
      append-AllAllowed prefix _ h (
          append-AllAllowed "_" _ (refl, tt)
            (shorten-AllAllowed result (sanitise-AllAllowed false orig_path))),
      omega (
        arith,
        length-append prefix ("_" ++ short),
        length-append "_" short,
        count-shorten result,
        one,
      ),
    )
  where
    one : count "_" ≡ 1
    one = refl

decimal-AllAllowed : (n : ℕ) → AllAllowed (decimal n)
unfolding decimal
decimal-AllAllowed n = decimal_from-AllAllowed (suc n) n String.[] tt

-- The name under which a file is staged consists of letters, digits, `_`, `.` and `-` only, so that it
-- names a file in the work directory itself, and is at most forty characters longer than the number
-- in front of it.
pub create_input_filename-AllAllowed :
    (number : ℕ) (orig_path : String)
    → AllAllowed (create_input_filename (zfill2 (decimal number)) orig_path)
      × (count (create_input_filename (zfill2 (decimal number)) orig_path)
          ≤ count (zfill2 (decimal number)) + 40)
create_input_filename-AllAllowed number orig_path =
    name-AllAllowed (zfill2 (decimal number)) orig_path
      (zfill2-AllAllowed (decimal number) (decimal-AllAllowed number))
