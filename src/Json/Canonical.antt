-- ===== src/Json/Canonical.antt =====
-- `canonicalDiscoveryNumbers` of discovery.go: the one spelling of a number by its value.
pub mod Digits
pub mod Spelled
pub mod Unique
pub mod Trimmed
pub mod Apart
pub mod Comparison
pub mod Normal
pub mod Exact
pub mod Values
pub mod Faithful
use provider_sdk.Json.{
  Items, Members, Value, arr, bool, cons, end, member, nil, null, num, obj, str,
}
use provider_sdk.Base.{
  Bool, Option, [], false, if◌then◌else◌, is_empty, length, list_beq, list_eq, ltb, nat_eq, none,
  refl, some, suc, true, zero, ℕ, ◌%◌, ◌&&◌, ◌++◌, ◌+◌, ◌-◌, ◌/◌, ◌==◌, ◌∷◌, ◌≡◌,
}
use provider_sdk.Base.Int.{neg_part, negsuc, pos, pos_part, sub_ℕ, ℤ}
use provider_sdk.Selection.{selector_eq}
use provider_sdk.Text.{Text, bytes}
use provider_sdk.Json.Number.{atoi, break_at, is_exponent_mark, is_point, shift}

-- `strings.TrimLeft(s, "0")`
unfoldable pub trim_left_zeros : Text → Text
trim_left_zeros [] = []
trim_left_zeros (b ∷ s) = let rest = trim_left_zeros s in if b == b'0' then rest else b ∷ s

-- `strings.TrimRight(s, "0")`
unfoldable pub trim_right_zeros : Text → Text
trim_right_zeros [] = []
trim_right_zeros (b ∷ s) =
    let rest = trim_right_zeros s in if b == b'0' && is_empty rest then [] else b ∷ rest

-- The decimal digits of a number, before those of the second argument. The fuel is `suc n`.
unfoldable pub digits_onto : ℕ → ℕ → Text → Text
digits_onto zero n rest = rest
digits_onto (suc f) n rest =
    let more_digits = digits_onto f (n / 10) ((48 + n % 10) ∷ rest) in
    if ltb n 10 then (48 + n) ∷ rest else more_digits

-- `strconv.Itoa`
unfoldable pub itoa : ℤ → Text
unfolding digits_onto
itoa (pos n) = digits_onto (suc n) n []
itoa (negsuc n) = b'-' ∷ digits_onto (suc (suc n)) (suc n) []

-- The exponent behind the mark. An error of `strconv.Atoi` is dropped, and for a text that is no
-- integer the value is 0. `Atoi` also fails beyond the bounds of an int64, which is not modelled:
-- `decodeParameterJSON` admits exponents of at most 128 only.
unfoldable pub written_exponent : Option Text → ℤ
unfolding atoi
written_exponent none = pos 0
written_exponent (some e) = elim (atoi e) [ none ↦ pos 0 | some n ↦ n ]

-- The digits with the point taken out, and the exponent less the digits behind it.
unfoldable pub without_point : Text × Option Text → ℤ → Text × ℤ
without_point (int, none) e = (int, e)
without_point (int, some frac) e = (int ++ frac, shift e (length frac))

abbrev pub sign_text : Bool → Text
sign_text true = bytes "-"
sign_text false = []

abbrev pub exponent_text : ℤ → Text
exponent_text (pos zero) = []
exponent_text e = b'e' ∷ itoa e

-- The exponent plus the count of the zeros taken off the right.
abbrev pub raised : ℤ → ℕ → ℤ
raised e k = sub_ℕ (pos_part e + k) (neg_part e)

-- The part of the number's case behind the point, on the digits and the exponent.
unfoldable pub spell : Bool → Text × ℤ → Text
unfolding itoa trim_left_zeros trim_right_zeros
spell negative (digits, e) =
    let s = trim_left_zeros digits in
    let trimmed = trim_right_zeros s in
    if is_empty s
    then bytes "0"
    else sign_text negative ++ (trimmed ++ exponent_text (raised e (length s - length trimmed)))

unfoldable pub canonical_unsigned : Bool → Text → Text
unfolding break_at without_point written_exponent spell
canonical_unsigned negative s =
    let (number, e) = break_at is_exponent_mark s in
    spell negative (without_point (break_at is_point number) (written_exponent e))

-- The case of a number.
unfoldable pub canonical_number : Text → Text
unfolding canonical_unsigned
canonical_number [] = canonical_unsigned false []
canonical_number (b ∷ s) =
    if b == b'-' then canonical_unsigned true s else canonical_unsigned false (b ∷ s)

-- `canonicalDiscoveryNumbers`. The loop over a map writes each member under its own key, so the result
-- has no order either: it is to be read up to `SameValue` of `Json.Alike`.
unfoldable mutual
  unfolding canonical_number

  pub canonical_value : Value → Value
  canonical_value (num n) = num (canonical_number n)
  canonical_value (obj ms) = obj (canonical_members ms)
  canonical_value (arr xs) = arr (canonical_items xs)
  canonical_value null = null
  canonical_value (bool b) = bool b
  canonical_value (str s) = str s

  pub canonical_members : Members → Members
  canonical_members end = end
  canonical_members (member name v ms) = member name (canonical_value v) (canonical_members ms)

  pub canonical_items : Items → Items
  canonical_items nil = nil
  canonical_items (cons v xs) = cons (canonical_value v) (canonical_items xs)

spelled : canonical_number (bytes "-0120.500e-3") ≡ bytes "-1205e-4"
unfolding canonical_number list_beq
spelled = refl

spelled_whole : canonical_number (bytes "1500") ≡ bytes "15e2"
unfolding canonical_number list_beq
spelled_whole = refl

spelled_zero : canonical_number (bytes "-0.00e7") ≡ bytes "0"
unfolding canonical_number list_beq
spelled_zero = refl
