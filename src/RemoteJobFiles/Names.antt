-- ===== src/RemoteJobFiles/Names.antt =====
-- `_create_input_filename`: the name that an input file gets in the work directory of its job.
use Prim.Native.Char.{code}
use Prim.Native.String.{◌++◌, count}
use simple_cwl_xenon_service.Prelude.{
  ℕ, ◌-◌, String, Bool, true, false, ◌&&◌, ◌||◌, ◌==◌, leb, ltb, if◌then◌else◌,
}
use simple_cwl_xenon_service.Text.{take, drop}

-- The class `[a-zA-Z0-9_.-]`
abbrev pub is_allowed : ℕ → Bool
is_allowed c =
    (leb b'a' c && leb c b'z')
    || (leb b'A' c && leb c b'Z')
    || (leb b'0' c && leb c b'9')
    || c == b'_'
    || c == b'.'
    || c == b'-'

-- `regex.sub('_', s)`: a run of other characters becomes one `_`. The first argument tells whether the
-- character before belongs to such a run. The four calls of `replace` have no effect.
unfoldable pub sanitise : Bool → String → String
sanitise in_run String.[] = String.[]
sanitise in_run (String.◌∷◌ c s) =
    let kept = String.◌∷◌ c (sanitise false s) in
    let replaced = String.◌∷◌ "_" (sanitise true s) in
    let skipped = sanitise true s in
    if is_allowed (code c) then kept else if in_run then skipped else replaced

-- `result[:18] + '___' + result[-18:]`
abbrev pub abridge : String → String
abridge s = take 18 s ++ ("___" ++ drop (count s - 18) s)

unfoldable pub create_input_filename : String → String → String
unfolding sanitise
create_input_filename unique_prefix orig_path =
    let result = sanitise false orig_path in
    unique_prefix ++ ("_" ++ (if ltb 39 (count result) then abridge result else result))
