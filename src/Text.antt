-- ===== src/Text.antt =====
-- The operations of Rust's `str` that the program uses. A text is the list of its code points, and
-- `len` counts the bytes of its UTF-8 form.
use Prim.Native.Char.{code}
use mathlib.Core.List.{reverse}
use mathlib.Core.Option
use tunmux.Prelude.{
  Bool, List, Option, String, [], false, if◌then◌else◌, is_empty, leb, ltb, map, none, some, true,
  ℕ, ℕ_eq, ◌%◌, ◌&&◌, ◌*◌, ◌++◌, ◌+◌, ◌-◌, ◌/◌, ◌==◌, ◌||◌, ◌∷◌,
}

abbrev pub Str : Type 0
Str = List ℕ

abbrev pub codes : String → Str
codes String.[] = []
codes (String.◌∷◌ c s) = code c ∷ codes s

-- `char::is_whitespace`: the code points with the property White_Space
unfoldable pub is_whitespace : ℕ → Bool
is_whitespace c =
    leb 9 c && leb c 13
    || c == 0x20
    || c == 0x85
    || c == 0xa0
    || c == 0x1680
    || leb 0x2000 c && leb c 0x200a
    || c == 0x2028
    || c == 0x2029
    || c == 0x202f
    || c == 0x205f
    || c == 0x3000

abbrev pub is_ascii_digit : ℕ → Bool
is_ascii_digit c = leb b'0' c && leb c b'9'

abbrev pub is_ascii_lowercase : ℕ → Bool
is_ascii_lowercase c = leb b'a' c && leb c b'z'

abbrev pub is_ascii_uppercase : ℕ → Bool
is_ascii_uppercase c = leb b'A' c && leb c b'Z'

abbrev pub is_ascii_alphanumeric : ℕ → Bool
is_ascii_alphanumeric c = is_ascii_digit c || is_ascii_lowercase c || is_ascii_uppercase c

abbrev pub lower : ℕ → ℕ
lower c = if is_ascii_uppercase c then c + 32 else c

unfoldable pub to_ascii_lowercase : Str → Str
to_ascii_lowercase s = map lower s

-- the bytes of one code point, and of a text
abbrev pub utf8 : ℕ → List ℕ
utf8 c =
    if ltb c 0x80
    then c ∷ []
    else if ltb c 0x800
    then (192 + c / 64) ∷ (128 + c % 64) ∷ []
    else if ltb c 0x10000
    then (224 + c / 4096) ∷ (128 + c / 64 % 64) ∷ (128 + c % 64) ∷ []
    else (240 + c / 262144) ∷ (128 + c / 4096 % 64) ∷ (128 + c / 64 % 64) ∷ (128 + c % 64) ∷ []

unfoldable pub as_bytes : Str → List ℕ
as_bytes [] = []
as_bytes (c ∷ s) = utf8 c ++ as_bytes s

abbrev pub utf8_len : ℕ → ℕ
utf8_len c = if ltb c 0x80 then 1 else if ltb c 0x800 then 2 else if ltb c 0x10000 then 3 else 4

unfoldable pub len : Str → ℕ
len [] = 0
len (c ∷ s) = utf8_len c + len s

unfoldable pub trim_start : Str → Str
unfolding is_whitespace
trim_start [] = []
trim_start (c ∷ s) = let rest = trim_start s in if is_whitespace c then rest else c ∷ s

unfoldable pub trim_end : Str → Str
unfolding trim_start
trim_end s = reverse (trim_start (reverse s))

unfoldable pub trim : Str → Str
unfolding trim_start trim_end
trim s = trim_end (trim_start s)

-- a line that ended in "\n" also loses one "\r"
abbrev pub strip_cr : Str → Str
strip_cr [] = []
strip_cr (c ∷ []) = if c == 13 then [] else c ∷ []
strip_cr (c ∷ s) = c ∷ strip_cr s

unfoldable pub lines_from : Str → Str → List Str
lines_from cur [] = if is_empty cur then [] else cur ∷ []
lines_from cur (c ∷ s) =
    let ended = lines_from [] s in
    let longer = lines_from (cur ++ c ∷ []) s in if c == 10 then strip_cr cur ∷ ended else longer

unfoldable pub lines : Str → List Str
unfolding lines_from
lines s = lines_from [] s

-- `s.split(sep)`, and its first part
abbrev pub push_head : ℕ → List Str → List Str
push_head c [] = (c ∷ []) ∷ []
push_head c (p ∷ ps) = (c ∷ p) ∷ ps

unfoldable pub split : ℕ → Str → List Str
split sep [] = [] ∷ []
split sep (c ∷ s) = let rest = split sep s in if c == sep then [] ∷ rest else push_head c rest

unfoldable pub before : ℕ → Str → Str
before sep [] = []
before sep (c ∷ s) = let rest = before sep s in if c == sep then [] else c ∷ rest

abbrev pub onto_first : ℕ → Str × Str → Str × Str
onto_first c (a, b) = (c ∷ a, b)

unfoldable pub split_once : ℕ → Str → Option (Str × Str)
split_once sep [] = none
split_once sep (c ∷ s) =
    let rest = split_once sep s in if c == sep then some ([], s) else Option.map (onto_first c) rest

-- the split at the last separator
abbrev pub keep_later : ℕ → ℕ → Str → Option (Str × Str) → Option (Str × Str)
keep_later sep c s (some p) = some (onto_first c p)
keep_later sep c s none = if c == sep then some ([], s) else none

unfoldable pub rsplit_once : ℕ → Str → Option (Str × Str)
rsplit_once sep [] = none
rsplit_once sep (c ∷ s) = keep_later sep c s (rsplit_once sep s)

unfoldable pub strip_prefix : Str → Str → Option Str
strip_prefix [] s = some s
strip_prefix (p ∷ ps) [] = none
strip_prefix (p ∷ ps) (c ∷ s) = let rest = strip_prefix ps s in if p == c then rest else none

unfoldable pub strip_suffix : Str → Str → Option Str
unfolding strip_prefix
strip_suffix p s = Option.map reverse (strip_prefix (reverse p) (reverse s))

unfoldable pub starts_with : Str → Str → Bool
unfolding strip_prefix
starts_with p s = elim (strip_prefix p s) [ some _ ↦ true | none ↦ false ]

-- `str::parse` for an unsigned type whose largest value is `bound`
unfoldable pub parse_digits : ℕ → ℕ → Str → Option ℕ
parse_digits bound acc [] = some acc
parse_digits bound acc (c ∷ s) =
    let next = acc * 10 + (c - b'0') in
    let rest = parse_digits bound next s in
    if is_ascii_digit c && leb next bound then rest else none

unfoldable pub parse_nonempty : ℕ → Str → Option ℕ
unfolding parse_digits
parse_nonempty bound [] = none
parse_nonempty bound (c ∷ s) = parse_digits bound 0 (c ∷ s)

unfoldable pub parse_unsigned : ℕ → Str → Option ℕ
unfolding parse_nonempty
parse_unsigned bound [] = none
parse_unsigned bound (c ∷ s) =
    if c == b'+' then parse_nonempty bound s else parse_nonempty bound (c ∷ s)

-- `str::contains` of a text
unfoldable pub contains_str : Str → Str → Bool
unfolding starts_with
contains_str needle [] = is_empty needle
contains_str needle (c ∷ s) = starts_with needle (c ∷ s) || contains_str needle s

unfoldable pub words_from : Str → Str → List Str
unfolding is_whitespace
words_from cur [] = if is_empty cur then [] else cur ∷ []
words_from cur (c ∷ s) =
    let ended = words_from [] s in
    let longer = words_from (cur ++ c ∷ []) s in
    if is_whitespace c then if is_empty cur then ended else cur ∷ ended else longer

unfoldable pub split_whitespace : Str → List Str
unfolding words_from
split_whitespace s = words_from [] s

-- `u32::from_str_radix(s, 16)`
abbrev hex_digit : ℕ → Option ℕ
hex_digit c =
    if is_ascii_digit c
    then some (c - b'0')
    else if leb b'a' c && leb c b'f'
    then some (c - b'a' + 10)
    else if leb b'A' c && leb c b'F'
    then some (c - b'A' + 10)
    else none

abbrev push_digit : ℕ → Option ℕ → Option ℕ
push_digit acc none = none
push_digit acc (some d) = if ltb (acc * 16 + d) 0x100000000 then some (acc * 16 + d) else none

abbrev hex_digits : Option ℕ → Str → Option ℕ
hex_digits none s = none
hex_digits (some acc) [] = some acc
hex_digits (some acc) (c ∷ s) = hex_digits (push_digit acc (hex_digit c)) s

abbrev hex_nonempty : Str → Option ℕ
hex_nonempty [] = none
hex_nonempty (c ∷ s) = hex_digits (some 0) (c ∷ s)

unfoldable pub parse_hex_u32 : Str → Option ℕ
parse_hex_u32 [] = none
parse_hex_u32 (c ∷ s) = if c == b'+' then hex_nonempty s else hex_nonempty (c ∷ s)

-- the code points in the order of their UTF-8 forms
unfoldable pub str_le : Str → Str → Bool
str_le [] t = true
str_le (a ∷ s) [] = false
str_le (a ∷ s) (b ∷ t) = let rest = str_le s t in ltb a b || a == b && rest
