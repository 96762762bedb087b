-- ===== src/Json/Number.antt =====
-- Decimal numbers: what the sources use of `strconv.Atoi` and `big.Rat`.
use Prim.Native.Nat.{compare, Ordering}
use provider_sdk.Base.{
  Bool, Check, Option, Result, [], all, err, false, if◌then◌else◌, length, list_eq, ltb, nat_eq,
  none, ok, panic, pass, refl, reject, some, suc, true, ℕ, ◌%◌, ◌&&◌, ◌*◌, ◌++◌, ◌+◌, ◌-◌, ◌==◌,
  ◌>>◌, ◌^◌, ◌||◌, ◌∷◌, ◌≡◌,
}
use provider_sdk.Base.Int.{neg_part, negate, negsuc, pos, pos_part, sub_ℕ, ℤ}
use provider_sdk.Text.{Text, bytes}
use provider_sdk.Text.Patterns.{is_digit}
use provider_sdk.Selection.{selector_eq}

-- The text before the first byte that passes the test, and the text behind that byte.
unfoldable pub break_at : (ℕ → Bool) → Text → Text × Option Text
break_at test [] = ([], none)
break_at test (b ∷ s) =
    let (before, after) = break_at test s in if test b then ([], some s) else (b ∷ before, after)

abbrev pub is_exponent_mark : ℕ → Bool
is_exponent_mark b = b == b'e' || b == b'E'

abbrev pub is_point : ℕ → Bool
is_point b = b == b'.'

abbrev pub are_digits : Text → Bool
are_digits [] = false
are_digits s = all is_digit s

unfoldable pub digits_value : ℕ → Text → ℕ
digits_value acc [] = acc
digits_value acc (b ∷ s) = digits_value (acc * 10 + (b - 48)) s

-- `strconv.Atoi`, without its bound of 64 bits: every caller accepts a far smaller range.
unfoldable pub atoi : Text → Option ℤ
unfolding digits_value
atoi [] = none
atoi (b ∷ s) =
    if b == b'-'
    then (if are_digits s then some (negate (digits_value 0 s)) else none)
    else if b == b'+'
    then (if are_digits s then some (pos (digits_value 0 s)) else none)
    else (if are_digits (b ∷ s) then some (pos (digits_value 0 (b ∷ s))) else none)

-- mantissa * 10 ^ exponent, negated or not.
pub record Decimal : Type 0 where
  pub negative : Bool
  pub mantissa : ℕ
  pub exponent : ℤ

-- The exponent of a number less the count of its digits behind the point.
abbrev pub shift : ℤ → ℕ → ℤ
shift e k = sub_ℕ (pos_part e) (neg_part e + k)

unfoldable pub exponent_of : Option Text → Option ℤ
unfolding atoi
exponent_of none = some (pos 0)
exponent_of (some e) = atoi e

unfoldable pub decimal_parts : Bool → Text → Option Text → Option ℤ → Option Decimal
unfolding digits_value
decimal_parts sign int frac none = none
decimal_parts sign int none (some e) =
    if are_digits int
    then some (record { negative = sign; mantissa = digits_value 0 int; exponent = e })
    else none
decimal_parts sign int (some frac) (some e) =
    if are_digits int && are_digits frac
    then some (record {
      negative = sign;
      mantissa = digits_value 0 (int ++ frac);
      exponent = shift e (length frac);
    })
    else none

unfoldable pub unsigned_decimal : Bool → Text → Option Decimal
unfolding break_at decimal_parts exponent_of
unsigned_decimal sign s =
    let (number, e) = break_at is_exponent_mark s in
    let (int, frac) = break_at is_point number in decimal_parts sign int frac (exponent_of e)

-- `new(big.Rat).SetString(s)` on the texts that reach it: JSON numbers, possibly between blanks
-- (which it refuses). `SetString` reads other notations too, and none of those is a JSON number.
unfoldable pub rat_of : Text → Option Decimal
unfolding unsigned_decimal
rat_of [] = none
rat_of (b ∷ s) = if b == b'-' then unsigned_decimal true s else unsigned_decimal false (b ∷ s)

-- The magnitude of `a` in units of 10 ^ -(n_a + n_b), for n the exponents' negative parts.
unfoldable pub magnitude : Decimal → Decimal → ℕ
magnitude a b = a.mantissa * 10 ^ (pos_part a.exponent + neg_part b.exponent)

abbrev pub above : Decimal → Decimal → ℕ
above a b = if a.negative then 0 else magnitude a b

abbrev pub below : Decimal → Decimal → ℕ
below a b = if a.negative then magnitude a b else 0

-- `x.Cmp(y)`
unfoldable pub rat_cmp : Decimal → Decimal → Ordering
unfolding magnitude
rat_cmp a b = compare (above a b + below b a) (above b a + below a b)

-- `r.IsInt()`
unfoldable pub is_int : Decimal → Bool
is_int a = elim a.exponent [ pos e ↦ true | negsuc e ↦ (a.mantissa % 10 ^ suc e) == 0 ]

-- `compareNumber`: `SetString` returns nil for a text that it refuses, and `Cmp` dereferences it.
unfoldable pub compare_rats : Option Decimal → Option Decimal → Result Ordering
unfolding rat_cmp
compare_rats (some x) (some y) = ok (rat_cmp x y)
compare_rats (some x) none = panic
compare_rats none _ = panic

unfoldable pub compare_number : Text → Text → Result Ordering
unfolding rat_of compare_rats
compare_number a b = compare_rats (rat_of a) (rat_of b)

-- The checks that `readParameterValue` makes of a number.
unfoldable pub check_exponent : Option Text → Check
unfolding atoi
check_exponent none = pass
check_exponent (some e) = elim (atoi e) [
  | none ↦ err "numeric exponent exceeds bounds"
  | some n ↦ reject (ltb 128 (pos_part n) || ltb 128 (neg_part n)) "numeric exponent exceeds bounds"
]

unfoldable pub check_number : Text → Check
unfolding break_at rat_of check_exponent
check_number v = do
  reject (ltb 128 (length v)) "numeric parameter exceeds bounds"
  check_exponent (break_at is_exponent_mark v).1
  elim (rat_of v) [ none ↦ err "invalid parameter number" | some _ ↦ pass ]

compares : compare_number (bytes "1.50e2") (bytes "150") ≡ ok Ordering.eq
unfolding compare_number
compares = refl

compares_below : compare_number (bytes "-3.5") (bytes "-3.49") ≡ ok Ordering.lt
unfolding compare_number
compares_below = refl
