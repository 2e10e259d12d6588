-- ===== src/Text.antt =====
-- The operations of Python's `str` that the code uses, on the native texts. Positions count code
-- points, as Python's do.
pub mod Laws
use Prim.Native.Char.{Char, code}
use Prim.Native.Nat.{compare, Ordering}
use Prim.Native.String
use Prim.Native.String.{◌++◌, count}
use text.Mathlib.Text.{◌==◌ as str_eq, starts_with}
use simple_cwl_xenon_service.Prelude.{
  ℕ, zero, suc, ◌-◌, ◌/◌, ◌%◌, String, Bool, true, false, ◌&&◌, ◌||◌, List, [], ◌∷◌, ◌==◌, leb, ltb,
  if◌then◌else◌,
}

abbrev pub is_empty : String → Bool
is_empty String.[] = true
is_empty (String.◌∷◌ c s) = false

-- Puts a character in front of the first part.
abbrev pub push : Char → List String → List String
push c [] = String.◌∷◌ c String.[] ∷ []
push c (w ∷ ws) = String.◌∷◌ c w ∷ ws

-- `s.split(sep)`, where `sep` is the code of one character.
unfoldable pub split : ℕ → String → List String
split sep String.[] = String.[] ∷ []
split sep (String.◌∷◌ c s) =
    let rest = split sep s in if code c == sep then String.[] ∷ rest else push c rest

-- `sep.join(parts)`, where `sep` is one character.
unfoldable pub join : Char → List String → String
join sep [] = String.[]
join sep (w ∷ []) = w
join sep (w ∷ v ∷ ws) = w ++ String.◌∷◌ sep (join sep (v ∷ ws))

-- The characters that `str.isspace` names.
abbrev pub is_space : ℕ → Bool
is_space c =
    (leb 9 c && leb c 13)
    || (leb 28 c && leb c 32)
    || c == 133
    || c == 160
    || c == 5760
    || (leb 8192 c && leb c 8202)
    || c == 8232
    || c == 8233
    || c == 8239
    || c == 8287
    || c == 12288

-- `s.lstrip()` and `s.strip()`
unfoldable pub lstrip : String → String
lstrip String.[] = String.[]
lstrip (String.◌∷◌ c s) = if is_space (code c) then lstrip s else String.◌∷◌ c s

abbrev rstrip_char : Char → String → String
rstrip_char c s = if is_space (code c) && is_empty s then String.[] else String.◌∷◌ c s

unfoldable pub rstrip : String → String
rstrip String.[] = String.[]
rstrip (String.◌∷◌ c s) = rstrip_char c (rstrip s)

unfoldable pub strip : String → String
unfolding lstrip rstrip
strip s = rstrip (lstrip s)

-- `s[:n]` and `s[n:]`
unfoldable pub take : ℕ → String → String
take zero s = String.[]
take (suc n) String.[] = String.[]
take (suc n) (String.◌∷◌ c s) = String.◌∷◌ c (take n s)

unfoldable pub drop : ℕ → String → String
drop zero s = s
drop (suc n) String.[] = String.[]
drop (suc n) (String.◌∷◌ c s) = drop n s

-- `s.endswith(suffix)`
unfoldable pub ends_with : String → String → Bool
ends_with String.[] suffix = str_eq String.[] suffix
ends_with (String.◌∷◌ c s) suffix = str_eq (String.◌∷◌ c s) suffix || ends_with s suffix

-- `s.replace(old, new)` for an `old` that is not empty; the first argument counts the characters of
-- an occurrence that are still to be passed over.
unfoldable pub replace_from : ℕ → String → String → String → String
replace_from skip old new String.[] = String.[]
replace_from (suc skip) old new (String.◌∷◌ c s) = replace_from skip old new s
replace_from zero old new (String.◌∷◌ c s) =
    let found = new ++ replace_from (count old - 1) old new s in
    let other = String.◌∷◌ c (replace_from zero old new s) in
    if starts_with (String.◌∷◌ c s) old then found else other

unfoldable pub replace : String → String → String → String
unfolding replace_from
replace old new s = replace_from zero old new s

-- `s.replace(old, new, 1)`
unfoldable pub replace_first : String → String → String → String
unfolding drop
replace_first old new String.[] = String.[]
replace_first old new (String.◌∷◌ c s) =
    if starts_with (String.◌∷◌ c s) old
    then new ++ drop (count old) (String.◌∷◌ c s)
    else String.◌∷◌ c (replace_first old new s)

-- `before, _, after = s.rpartition(sep)`: the parts before and after the last `sep`.
abbrev partition_char : ℕ → Char → (Bool × String × String) → (Bool × String × String)
partition_char sep c (true, before, after) = (true, String.◌∷◌ c before, after)
partition_char sep c (false, before, after) =
    if code c == sep then (true, String.[], after) else (false, String.[], String.◌∷◌ c after)

-- The first component tells whether `sep` occurs.
unfoldable pub rpartition : ℕ → String → Bool × String × String
rpartition sep String.[] = (false, String.[], String.[])
rpartition sep (String.◌∷◌ c s) = partition_char sep c (rpartition sep s)

-- `s.splitlines()`, where the end of a line is not part of it and `\r\n` ends one line.
abbrev pub ends_line : ℕ → Bool
ends_line c = (leb 10 c && leb c 13) || (leb 28 c && leb c 30) || c == 133 || c == 8232 || c == 8233

abbrev starts_with_feed : String → Bool
starts_with_feed String.[] = false
starts_with_feed (String.◌∷◌ c s) = code c == 10

unfoldable pub splitlines : String → List String
splitlines String.[] = []
splitlines (String.◌∷◌ c s) =
    let rest = splitlines s in
    if ends_line (code c)
    then (if code c == 13 && starts_with_feed s then rest else String.[] ∷ rest)
    else push c rest

-- `str(n)` of a natural number.
abbrev pub digit : ℕ → Char
digit n =
    if n == 0
    then "0"
    else if n == 1
    then "1"
    else if n == 2
    then "2"
    else if n == 3
    then "3"
    else if n == 4
    then "4"
    else if n == 5
    then "5"
    else if n == 6
    then "6"
    else if n == 7
    then "7"
    else if n == 8
    then "8"
    else "9"

-- With as much fuel as the number no digit is lost.
unfoldable pub decimal_from : ℕ → ℕ → String → String
decimal_from zero n rest = rest
decimal_from (suc fuel) n rest =
    let more = decimal_from fuel (n / 10) (String.◌∷◌ (digit (n % 10)) rest) in
    let last = String.◌∷◌ (digit n) rest in if ltb n 10 then last else more

unfoldable pub decimal : ℕ → String
unfolding decimal_from
decimal n = decimal_from (suc n) n String.[]

-- `s.zfill(2)` of a text without a sign.
unfoldable pub zfill2 : String → String
zfill2 s = if ltb (count s) 2 then (if count s == 0 then "00" else String.◌∷◌ "0" s) else s
