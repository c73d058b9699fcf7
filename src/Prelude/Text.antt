-- ===== src/Prelude/Text.antt =====
-- Text as a list of characters.
use Prim.Native.Char.{code}
use Prim.Native.Nat.{ℕ, zero, suc, ◌+◌, ◌-◌, ◌*◌, ◌^◌}
use Prim.Native.String.{String}
use mathlib.Core.Bool.{Bool, true, false, ◌&&◌, ◌||◌}
use mathlib.Core.List.{List, [], ◌∷◌}
use mathlib.Core.Option.{Option, none, some}
use openuu_server.Prelude.Tests.{ltb, leb, ◌==◌, if◌then◌else◌}

abbrev pub is_empty_text : String → Bool
is_empty_text String.[] = true
is_empty_text (String.◌∷◌ c s) = false

abbrev prepend : String → List String → List String
prepend s [] = s ∷ []
prepend s (w ∷ ws) = (join s w) ∷ ws
  where
    join : String → String → String
    join String.[] w = w
    join (String.◌∷◌ c r) w = String.◌∷◌ c (join r w)

-- str::split at an ASCII character: one piece more than there are separators
unfoldable pub split : ℕ → String → List String
split sep String.[] = "" ∷ []
split sep (String.◌∷◌ c s) =
    let rest = split sep s in
    if code c == sep then "" ∷ rest else prepend (String.◌∷◌ c String.[]) rest

-- char::is_whitespace, on the code
abbrev pub is_whitespace : ℕ → Bool
is_whitespace n =
    leb 9 n && leb n 13
    || n == 32
    || n == 133
    || n == 160
    || n == 5760
    || leb 8192 n && leb n 8202
    || n == 8232
    || n == 8233
    || n == 8239
    || n == 8287
    || n == 12288

abbrev pub trim_start : String → String
trim_start String.[] = ""
trim_start (String.◌∷◌ c s) =
    let rest = trim_start s in if is_whitespace (code c) then rest else String.◌∷◌ c s

abbrev pub trim_end : String → String
trim_end String.[] = ""
trim_end (String.◌∷◌ c s) =
    let rest = trim_end s in
    if is_empty_text rest && is_whitespace (code c) then "" else String.◌∷◌ c rest

-- str::trim
unfoldable pub trim : String → String
trim s = trim_end (trim_start s)

abbrev digits : ℕ → String → Option ℕ
digits n String.[] = some n
digits n (String.◌∷◌ c s) =
    let rest = digits (n * 10 + (code c - 48)) s in
    if leb 48 (code c) && leb (code c) 57 then rest else none

abbrev below_2_64 : Option ℕ → Option ℕ
below_2_64 none = none
below_2_64 (some n) = if ltb n (2 ^ 64) then some n else none

abbrev unsigned : String → Option ℕ
unsigned String.[] = none
unsigned (String.◌∷◌ c s) = below_2_64 (digits 0 (String.◌∷◌ c s))

-- parse::<usize>, on 64 bits
unfoldable pub parse_usize : String → Option ℕ
parse_usize String.[] = none
parse_usize (String.◌∷◌ c s) =
    let rest = unsigned s in if code c == 43 then rest else unsigned (String.◌∷◌ c s)

-- `chars().take(n).collect()`
abbrev pub take_chars : ℕ → String → String
take_chars zero s = ""
take_chars (suc n) String.[] = ""
take_chars (suc n) (String.◌∷◌ c s) = String.◌∷◌ c (take_chars n s)

abbrev below_2_31 : Option ℕ → Option ℕ
below_2_31 none = none
below_2_31 (some n) = if ltb n (2 ^ 31) then some n else none

abbrev only_zero : Option ℕ → Option ℕ
only_zero none = none
only_zero (some n) = if n == 0 then some 0 else none

abbrev with_digits : (Option ℕ → Option ℕ) → String → Option ℕ
with_digits f String.[] = none
with_digits f (String.◌∷◌ c s) = f (digits 0 (String.◌∷◌ c s))

-- parse::<i32>, if it gives no error and no negative number
unfoldable pub parse_natural_i32 : String → Option ℕ
parse_natural_i32 String.[] = none
parse_natural_i32 (String.◌∷◌ c s) =
    if code c == 43
    then with_digits below_2_31 s
    else if code c == 45
    then with_digits only_zero s
    else with_digits below_2_31 (String.◌∷◌ c s)

-- str::contains of an ASCII character
unfoldable pub contains_char : ℕ → String → Bool
contains_char k String.[] = false
contains_char k (String.◌∷◌ c s) =
    let rest = contains_char k s in if code c == k then true else rest
