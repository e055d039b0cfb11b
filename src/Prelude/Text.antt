-- ===== src/Prelude/Text.antt =====
-- Text as the source uses it: equality, concatenation, a prefix of characters, blanks, decimals.
use Prim.Native.Nat.{ℕ, zero, suc, ◌-◌, ◌/◌, ◌%◌}
use Prim.Native.Char.{code}
use Prim.Native.String.{String}
use Prim.Native.String
use mathlib.Core.Path.{◌≡◌, refl}
use mathlib.Core.Bool.{Bool, true, ◌&&◌, ◌||◌}
use Prim.Native.String.{compare}
use mathlib.Core.List.{List, [], ◌∷◌}
use text.Mathlib.Text.{is_lt, ◌==◌, starts_with as text_starts_with}
use neocortex.Prelude.Tests.{leb, ltb, if◌then◌else◌, ◌==◌ as eq_ℕ}

-- Names of this development for the library's operations on texts.
abbrev pub str_eq : String → String → Bool
str_eq = ◌==◌

abbrev pub starts_with : String → String → Bool
starts_with = text_starts_with

abbrev pub text_append : String → String → String
text_append s t = String.◌++◌ s t

-- `s[:n]` for a literal n: at most the first n characters.
unfoldable pub prefix : ℕ → String → String
prefix zero s = ""
prefix (suc n) String.[] = ""
prefix (suc n) (String.◌∷◌ c s) = String.◌∷◌ c (prefix n s)

-- The characters that `str.strip` and `str.split` treat as blank, within ASCII and Latin-1,
-- and those beyond it that `str.isspace` names.
abbrev pub is_blank : ℕ → Bool
is_blank c =
    (leb 9 c && leb c 13)
    || (leb 28 c && leb c 32)
    || eq_ℕ c 133
    || eq_ℕ c 160
    || eq_ℕ c 5760
    || (leb 8192 c && leb c 8202)
    || (leb 8232 c && leb c 8233)
    || eq_ℕ c 8239
    || eq_ℕ c 8287
    || eq_ℕ c 12288

-- `not s.strip()`
unfoldable pub blank : String → Bool
blank String.[] = true
blank (String.◌∷◌ c s) = is_blank (code c) && blank s

-- `s.lstrip()`
unfoldable pub lstrip : String → String
lstrip String.[] = ""
lstrip (String.◌∷◌ c s) = let rest = lstrip s in if is_blank (code c) then rest else String.◌∷◌ c s

-- `s.rstrip()`
unfoldable pub rstrip : String → String
rstrip String.[] = ""
rstrip (String.◌∷◌ c s) = if blank (String.◌∷◌ c s) then "" else String.◌∷◌ c (rstrip s)

unfoldable pub strip : String → String
unfolding lstrip rstrip
strip s = rstrip (lstrip s)

-- The number of characters.
unfoldable pub size : String → ℕ
size String.[] = 0
size (String.◌∷◌ c s) = suc (size s)

unfoldable pub drop_chars : ℕ → String → String
drop_chars zero s = s
drop_chars (suc n) String.[] = ""
drop_chars (suc n) (String.◌∷◌ c s) = drop_chars n s

-- `s[-n:]` for a literal n > 0.
unfoldable pub suffix : ℕ → String → String
unfolding size drop_chars
suffix n s = drop_chars (size s - n) s

-- `sep.join(texts)`
unfoldable pub join : String → List String → String
join sep [] = ""
join sep (s ∷ []) = s
join sep (s ∷ t ∷ ts) = text_append s (text_append sep (join sep (t ∷ ts)))

-- The order of texts by their bytes.
abbrev pub str_lt : String → String → Bool
str_lt s t = is_lt (compare s t)

digit : ℕ → String
digit n =
    if eq_ℕ n 0
    then "0"
    else if eq_ℕ n 1
    then "1"
    else if eq_ℕ n 2
    then "2"
    else if eq_ℕ n 3
    then "3"
    else if eq_ℕ n 4
    then "4"
    else if eq_ℕ n 5
    then "5"
    else if eq_ℕ n 6
    then "6"
    else if eq_ℕ n 7
    then "7"
    else if eq_ℕ n 8
    then "8"
    else "9"

-- A number has at most n digits beyond the first, so fuel n is enough.
decimal_fuel : ℕ → ℕ → String
unfolding digit
decimal_fuel zero n = digit (n % 10)
decimal_fuel (suc f) n =
    let rest = decimal_fuel f (n / 10) in
    if ltb n 10 then digit n else text_append rest (digit (n % 10))

-- `str(n)`
unfoldable pub decimal : ℕ → String
unfolding decimal_fuel
decimal n = decimal_fuel n n

-- `f"{n:03d}"`
unfoldable pub decimal_03 : ℕ → String
unfolding decimal
decimal_03 n =
    if ltb n 10
    then text_append "00" (decimal n)
    else if ltb n 100
    then text_append "0" (decimal n)
    else decimal n

decimal_03_test : text_append (decimal_03 7) (decimal_03 1042) ≡ "0071042"
unfolding decimal_03
decimal_03_test = refl

-- `needle in s`, at one of the first n + 1 positions.
unfoldable pub contains_within : ℕ → String → String → Bool
unfolding drop_chars
contains_within zero needle s = starts_with s needle
contains_within (suc n) needle s =
    let rest = contains_within n needle (drop_chars 1 s) in starts_with s needle || rest

-- `needle in s`
unfoldable pub contains : String → String → Bool
unfolding contains_within size
contains needle s = contains_within (size s) needle s
