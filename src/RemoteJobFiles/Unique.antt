-- ===== src/RemoteJobFiles/Unique.antt =====
-- Staged files of one job have different names, since each name begins with the number of its file.
use Prim.Native.Char.{code}
use Prim.Native.String.{◌++◌, count}
use text.Mathlib.TextLemmas.{length-cons, nil-append, cons-append}
use simple_cwl_xenon_service.Prelude.{
  ℕ, zero, suc, ◌+◌, ◌-◌, ◌*◌, ◌/◌, ◌%◌, ◌<◌, ◌≡◌, refl, sym, ◌∙◌, ap, String, Bool, true, false,
  inl, inr, Bool-cases, arith, ltb, leb, ◌==◌, ◌&&◌, if◌then◌else◌,
}
use simple_cwl_xenon_service.Text.{digit, decimal_from, decimal, zfill2}
use simple_cwl_xenon_service.RemoteJobFiles.Names.{create_input_filename}

abbrev is_digit : ℕ → Bool
is_digit c = leb 48 c && leb c 57

-- The number at the front of a text, behind the digits of the number `n`.
unfoldable pub number_at : ℕ → String → ℕ
number_at n String.[] = n
number_at n (String.◌∷◌ c s) =
    let rest = number_at (n * 10 + (code c - 48)) s in if is_digit (code c) then rest else n

code-digit : (n : ℕ) → n < 10 → code (digit n) ≡ n + 48
code-digit zero h = refl
code-digit (suc zero) h = refl
code-digit (suc (suc zero)) h = refl
code-digit (suc (suc (suc zero))) h = refl
code-digit (suc (suc (suc (suc zero)))) h = refl
code-digit (suc (suc (suc (suc (suc zero))))) h = refl
code-digit (suc (suc (suc (suc (suc (suc zero)))))) h = refl
code-digit (suc (suc (suc (suc (suc (suc (suc zero))))))) h = refl
code-digit (suc (suc (suc (suc (suc (suc (suc (suc zero)))))))) h = refl
code-digit (suc (suc (suc (suc (suc (suc (suc (suc (suc zero))))))))) h = refl
code-digit (suc (suc (suc (suc (suc (suc (suc (suc (suc (suc n)))))))))) h = omega arith

number_at-digit :
    (n d : ℕ) (s : String)
    → d < 10
    → number_at n (String.◌∷◌ (digit d) s) ≡ number_at (n * 10 + d) s
unfolding number_at
number_at-digit n d s h = rw (code-digit d h, allowed, back) refl
  where
    allowed : is_digit (d + 48) ≡ true
    allowed = ground arith

    back : d + 48 - 48 ≡ d
    back = omega arith

number_at-decimal_from :
    (fuel n : ℕ) (rest : String)
    → n < fuel
    → number_at 0 (decimal_from fuel n rest) ≡ number_at n rest
unfolding decimal_from
number_at-decimal_from zero n rest h = omega arith
number_at-decimal_from (suc fuel) n rest h = elim (Bool-cases (ltb n 10)) [
  | inl e ↦ rw e (number_at-digit 0 n rest (ground arith) ∙ ap (λ m. number_at m rest) alone)
  | inr e ↦ rw e (
      number_at-decimal_from fuel (n / 10) (String.◌∷◌ (digit (n % 10)) rest) (ground arith)
      ∙ number_at-digit (n / 10) (n % 10) rest (omega arith)
      ∙ ap (λ m. number_at m rest) split)
]
  where
    alone : 0 * 10 + n ≡ n
    alone = omega arith

    split : n / 10 * 10 + n % 10 ≡ n
    split = omega arith

decimal_from-append :
    (fuel n : ℕ) (rest t : String) → decimal_from fuel n rest ++ t ≡ decimal_from fuel n (rest ++ t)
unfolding decimal_from
decimal_from-append zero n rest t = refl
decimal_from-append (suc fuel) n rest t = elim (Bool-cases (ltb n 10)) [
  | inl e ↦ rw e (cons-append (digit n) rest t)
  | inr e ↦ rw e (
      decimal_from-append fuel (n / 10) (String.◌∷◌ (digit (n % 10)) rest) t
      ∙ ap (decimal_from fuel (n / 10)) (cons-append (digit (n % 10)) rest t))
]

number_at-zero : (s t : String) → number_at 0 (String.◌∷◌ "0" s ++ t) ≡ number_at 0 (s ++ t)
number_at-zero s t = rw (cons-append "0" s t) (number_at-digit 0 0 (s ++ t) (omega arith))

number_at-zfill2 : (s t : String) → number_at 0 (zfill2 s ++ t) ≡ number_at 0 (s ++ t)
unfolding zfill2
number_at-zfill2 String.[] t = number_at-zero "0" t ∙ number_at-zero "" t
number_at-zfill2 (String.◌∷◌ c s) t = elim (Bool-cases (ltb (count (String.◌∷◌ c s)) 2)) [
  | inl e ↦ rw (e, not_empty) (number_at-zero (String.◌∷◌ c s) t)
  | inr e ↦ rw e refl
]
  where
    not_empty : (count (String.◌∷◌ c s) == 0) ≡ false
    not_empty = ground (arith, length-cons c s)

number_at-decimal : (n : ℕ) (t : String) → number_at 0 (decimal n ++ t) ≡ number_at n t
unfolding decimal
number_at-decimal n t =
    ap (number_at 0) (decimal_from-append (suc n) n String.[] t)
    ∙ number_at-decimal_from (suc n) n (String.[] ++ t) (omega arith)
    ∙ ap (number_at n) (nil-append t)

ends_number : (n : ℕ) (s : String) → number_at n (String.◌∷◌ "_" s) ≡ n
unfolding number_at
ends_number n s = refl

number_at-create_input_filename :
    (n : ℕ) (orig_path : String)
    → number_at 0 (create_input_filename (zfill2 (decimal n)) orig_path) ≡ n
unfolding create_input_filename
number_at-create_input_filename n orig_path =
    number_at-zfill2 (decimal n) _ ∙ number_at-decimal n _ ∙ stops _
  where
    stops : (s : String) → number_at n ("_" ++ s) ≡ n
    stops s = rw (cons-append "_" String.[] s) (ends_number n (String.[] ++ s))

-- Files of a job that are staged under different numbers get different names, whatever they were
-- called.
pub create_input_filename-injective :
    (m n : ℕ) (path other_path : String)
    → create_input_filename (zfill2 (decimal m)) path
      ≡ create_input_filename (zfill2 (decimal n)) other_path
    → m ≡ n
create_input_filename-injective m n path other_path e =
    sym (number_at-create_input_filename m path)
    ∙ ap (number_at 0) e
    ∙ number_at-create_input_filename n other_path
