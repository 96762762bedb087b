-- ===== src/Text.antt =====
-- Go strings as lists of bytes, and what the sources use of the packages `strings`, `unicode` and
-- `unicode/utf8`. Nothing depends on a byte being below 256.
pub mod Patterns
pub mod Laws
use Prim.Native.Char.{code}
use provider_sdk.Base.{
  Bool, List, String, [], any, contains, false, if◌then◌else◌, is_empty, leb, length, list_eq, ltb,
  nat_eq, not, reverse, suc, true, zero, ℕ, ◌&&◌, ◌-◌, ◌==◌, ◌||◌, ◌∷◌,
}

abbrev pub Text : Type 0
Text = List ℕ

-- The bytes of a literal; all literals of the sources are ASCII.
abbrev pub bytes : String → Text
bytes String.[] = []
bytes (String.◌∷◌ c s) = code c ∷ bytes s

-- `strings.HasPrefix(s, prefix)`
unfoldable pub has_prefix : Text → Text → Bool
has_prefix s [] = true
has_prefix [] (p ∷ ps) = false
has_prefix (b ∷ s) (p ∷ ps) = b == p && has_prefix s ps

abbrev pub in_range : ℕ → ℕ → ℕ → Bool
in_range lo hi b = leb lo b && leb b hi

-- The width of the rune of `unicode.White_Space` that a text begins with, 0 if it begins with none.
space_width : Text → ℕ
space_width [] = 0
space_width (b ∷ []) = if in_range 9 13 b || b == 32 then 1 else 0
space_width (b ∷ c ∷ []) =
    if in_range 9 13 b || b == 32 then 1 else if b == 0xc2 && (c == 0x85 || c == 0xa0) then 2 else 0
space_width (b ∷ c ∷ d ∷ s) =
    if in_range 9 13 b || b == 32
    then 1
    else if b == 0xc2 && (c == 0x85 || c == 0xa0)
    then 2
    else if (b == 0xe1 && c == 0x9a && d == 0x80)
        || (b == 0xe2 && c == 0x80 && (in_range 0x80 0x8a d || d == 0xa8 || d == 0xa9 || d == 0xaf))
        || (b == 0xe2 && c == 0x81 && d == 0x9f)
        || (b == 0xe3 && c == 0x80 && d == 0x80)
    then 3
    else 0

-- The same for the rune that a text ends with, over the reversed text.
last_space_width : Text → ℕ
last_space_width [] = 0
last_space_width (b ∷ []) = space_width (b ∷ [])
last_space_width (c ∷ b ∷ []) =
    let two = space_width (b ∷ c ∷ []) in if two == 2 then 2 else space_width (c ∷ [])
last_space_width (d ∷ c ∷ b ∷ s) =
    let three = space_width (b ∷ c ∷ d ∷ []) in
    let two = space_width (c ∷ d ∷ []) in
    if three == 3 then 3 else if two == 2 then 2 else space_width (d ∷ [])

-- The first argument counts the bytes left of a rune that is being dropped.
trim_from : (Text → ℕ) → ℕ → Text → Text
trim_from width _ [] = []
trim_from width (suc k) (b ∷ s) = trim_from width k s
trim_from width zero (b ∷ s) =
    let w = width (b ∷ s) in let rest = trim_from width (w - 1) s in if w == 0 then b ∷ s else rest

-- `strings.TrimSpace`
unfoldable pub trim_space : Text → Text
unfolding space_width last_space_width trim_from
trim_space s = reverse (trim_from last_space_width 0 (reverse (trim_from space_width 0 s)))

-- `strings.TrimSpace(s) == ""`
unfoldable pub is_blank : Text → Bool
unfolding trim_space
is_blank s = is_empty (trim_space s)

abbrev is_continuation : ℕ → Bool
is_continuation b = in_range 0x80 0xbf b

-- The second byte that may follow the first byte of a longer rune (no overlong forms, no
-- surrogates, nothing above U+10FFFF).
second_fits : ℕ → ℕ → Bool
second_fits a b =
    if a == 0xe0
    then in_range 0xa0 0xbf b
    else if a == 0xed
    then in_range 0x80 0x9f b
    else if a == 0xf0
    then in_range 0x90 0xbf b
    else if a == 0xf4
    then in_range 0x80 0x8f b
    else is_continuation b

-- The width of the well-formed rune that a text begins with, 0 if it begins with none.
rune_width : Text → ℕ
rune_width [] = 0
rune_width (a ∷ []) = if leb a 0x7f then 1 else 0
rune_width (a ∷ b ∷ []) =
    if leb a 0x7f then 1 else if in_range 0xc2 0xdf a && is_continuation b then 2 else 0
rune_width (a ∷ b ∷ c ∷ []) =
    if leb a 0x7f
    then 1
    else if in_range 0xc2 0xdf a && is_continuation b
    then 2
    else if in_range 0xe0 0xef a && second_fits a b && is_continuation c
    then 3
    else 0
rune_width (a ∷ b ∷ c ∷ d ∷ s) =
    if leb a 0x7f
    then 1
    else if in_range 0xc2 0xdf a && is_continuation b
    then 2
    else if in_range 0xe0 0xef a && second_fits a b && is_continuation c
    then 3
    else if in_range 0xf0 0xf4 a && second_fits a b && is_continuation c && is_continuation d
    then 4
    else 0

valid_from : ℕ → Text → Bool
valid_from _ [] = true
valid_from (suc k) (b ∷ s) = valid_from k s
valid_from zero (b ∷ s) =
    let w = rune_width (b ∷ s) in let rest = valid_from (w - 1) s in if w == 0 then false else rest

-- `utf8.ValidString`
unfoldable pub valid_string : Text → Bool
unfolding second_fits rune_width valid_from
valid_string s = valid_from 0 s

-- `strings.IndexFunc(s, unicode.IsControl) >= 0`: U+0000 to U+001F and U+007F to U+009F. The byte
-- 0xc2 never continues a rune, so bytes serve as well as runes.
unfoldable pub has_control : Text → Bool
has_control [] = false
has_control (b ∷ []) = ltb b 0x20 || b == 0x7f
has_control (b ∷ c ∷ s) =
    ltb b 0x20 || b == 0x7f || (b == 0xc2 && in_range 0x80 0x9f c) || has_control (c ∷ s)

-- `strings.ContainsAny(s, chars)` for ASCII `chars`
unfoldable pub contains_any : Text → Text → Bool
contains_any s chars = any (contains chars) s

-- `discoveryText`
unfoldable pub discovery_text : Text → ℕ → Bool
discovery_text value maximum =
    not (is_empty value)
    && leb (length value) maximum
    && valid_string value
    && trim_space value == value
    && not (has_control value)
