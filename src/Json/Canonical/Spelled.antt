-- ===== src/Json/Canonical/Spelled.antt =====
-- What the one spelling of a number has of the number that `rat_of` reads.
use mathlib.Core.Path.{subst}
use provider_sdk.Base.{
  Bool, Bool-cases, Option, [], all, ap, arith, false, if◌then◌else◌, inl, inr, length, list_eq,
  nat_eq, none, refl, some, true, ◌&&◌, ◌++◌, ◌==◌, ◌∷◌, ◌≡◌,
}
use provider_sdk.Json.Number.{
  Decimal, are_digits, atoi, break_at, decimal_parts, digits_value, exponent_of, is_exponent_mark,
  is_point, rat_of, shift, unsigned_decimal,
}
use provider_sdk.Text.{Text}
use provider_sdk.Base.Int.{pos, ℤ}
use provider_sdk.Json.Canonical.{
  canonical_number, canonical_unsigned, spell, without_point, written_exponent,
}
use provider_sdk.Text.Patterns.{is_digit}
use provider_sdk.Selection.{selector_eq}

-- The digits and the exponent that are spelled are those of the decimal.
pub record IsSpelled (text : Text) (x : Decimal) : Type 0 where
  pub digits : Text
  pub is_spelled : text ≡ spell x.negative (digits, x.exponent)
  pub all_digits : all is_digit digits ≡ true
  pub is_mantissa : x.mantissa ≡ digits_value 0 digits

are_digits-all : (s : Text) → are_digits s ≡ true → all is_digit s ≡ true
are_digits-all [] h = refl
are_digits-all (b ∷ s) h = h

all-append :
    (s t : Text) → all is_digit s ≡ true → all is_digit t ≡ true → all is_digit (s ++ t) ≡ true
all-append [] t h k = k
all-append (b ∷ s) t h k = ground (arith, all-append s t)

written_exponent-exponent_of :
    (o : Option Text) (e : ℤ) → exponent_of o ≡ some e → written_exponent o ≡ e
unfolding exponent_of written_exponent
written_exponent-exponent_of none e h = cc
written_exponent-exponent_of (some t) e h = read_or_zero (atoi t) h
  where
    read_or_zero : (m : Option ℤ) → m ≡ some e → (elim m [ none ↦ pos 0 | some n ↦ n ]) ≡ e
    read_or_zero none h = cc
    read_or_zero (some n) h = cc

when-eq-some :
    (c : Bool) (a x : Decimal) → (if c then some a else none) ≡ some x → (c ≡ true) × (a ≡ x)
when-eq-some true a x h = (refl, cc)
when-eq-some false a x h = absurd (cc h)

both_digits : (a b : Bool) → (a && b) ≡ true → (a ≡ true) × (b ≡ true)
both_digits a b h = ground arith

-- What `decimal_parts` needs and makes, with and without a point.
parts_whole :
    (sign : Bool) (int : Text) (m : Option ℤ) (x : Decimal)
    → decimal_parts sign int none m ≡ some x
    → (e : ℤ) × (m ≡ some e)
      × (are_digits int ≡ true)
      × (record { negative = sign; mantissa = digits_value 0 int; exponent = e } ≡ x)
unfolding decimal_parts
parts_whole sign int none x h = absurd (cc h)
parts_whole sign int (some e) x h =
    let (digits, made) = when-eq-some (are_digits int) _ x h in (e, refl, digits, made)

parts_pointed :
    (sign : Bool) (int frac : Text) (m : Option ℤ) (x : Decimal)
    → decimal_parts sign int (some frac) m ≡ some x
    → (e : ℤ) × (m ≡ some e)
      × (are_digits int ≡ true)
      × (are_digits frac ≡ true)
      × (record {
        negative = sign;
        mantissa = digits_value 0 (int ++ frac);
        exponent = shift e (length frac);
      }
          ≡ x)
unfolding decimal_parts
parts_pointed sign int frac none x h = absurd (cc h)
parts_pointed sign int frac (some e) x h =
    let (both, made) = when-eq-some (are_digits int && are_digits frac) _ x h in
    let (digits, more_digits) = both_digits (are_digits int) (are_digits frac) both in
    (e, refl, digits, more_digits, made)

IsSpelled-parts :
    (sign : Bool) (int : Text) (frac o : Option Text) (x : Decimal)
    → decimal_parts sign int frac (exponent_of o) ≡ some x
    → IsSpelled (spell sign (without_point (int, frac) (written_exponent o))) x
unfolding without_point
IsSpelled-parts sign int none o x h =
    let (e, read, digits, made) = parts_whole sign int (exponent_of o) x h in
    subst (IsSpelled (spell sign (int, written_exponent o))) made record {
      digits = int;
      is_spelled = ap (λ (z : ℤ). spell sign (int, z)) (written_exponent-exponent_of o e read);
      all_digits = are_digits-all int digits;
      is_mantissa = refl;
    }
IsSpelled-parts sign int (some frac) o x h =
    let (e, read, digits, more_digits, made) = parts_pointed sign int frac (exponent_of o) x h in
    subst (IsSpelled (spell sign (int ++ frac, shift (written_exponent o) (length frac)))) made
      record {
        digits = int ++ frac;
        is_spelled =
            ap (λ (z : ℤ). spell sign (int ++ frac, shift z (length frac)))
              (written_exponent-exponent_of o e read);
        all_digits =
            all-append int frac (are_digits-all int digits) (are_digits-all frac more_digits);
        is_mantissa = refl;
      }

canonical_unsigned-IsSpelled :
    (sign : Bool) (s : Text) (x : Decimal)
    → unsigned_decimal sign s ≡ some x
    → IsSpelled (canonical_unsigned sign s) x
unfolding canonical_unsigned unsigned_decimal
canonical_unsigned-IsSpelled sign s x h =
    let (number, e) = break_at is_exponent_mark s in
    IsSpelled-parts sign (break_at is_point number).0 (break_at is_point number).1 e x h

-- A number that `rat_of` reads is spelled by the digits, the sign and the exponent of its value.
pub canonical_number-IsSpelled :
    (v : Text) (x : Decimal) → rat_of v ≡ some x → IsSpelled (canonical_number v) x
unfolding rat_of canonical_number
canonical_number-IsSpelled [] x h = absurd (cc h)
canonical_number-IsSpelled (b ∷ s) x h = elim (Bool-cases (b == b'-')) [
  | inl minus ↦ rw minus (canonical_unsigned-IsSpelled true s x (rw minus at h))
  | inr other ↦ rw other (canonical_unsigned-IsSpelled false (b ∷ s) x (rw other at h))
]
