-- ===== src/Json/Canonical/Normal.antt =====
-- The digits, the zeros and the exponent that the spelling of a number consists of.
use provider_sdk.Base.{
  [], all, ap, if◌then◌else◌, inl, inr, is_empty, length, refl, some, sym, true, ℕ, ◌%◌, ◌*◌, ◌++◌,
  ◌+◌, ◌-◌, ◌^◌, ◌∙◌, ◌∷◌, ◌≡◌, ◌≢◌, ◌⊎◌,
}
use provider_sdk.Text.{Text, bytes}
use provider_sdk.Base.Int.{neg_part, pos_part}
use provider_sdk.Json.Canonical.{
  canonical_number, exponent_text, raised, sign_text, spell, trim_left_zeros, trim_right_zeros,
}
use provider_sdk.Json.Number.{Decimal, digits_value, magnitude, rat_of}
use provider_sdk.Text.Patterns.{is_digit}
use provider_sdk.Json.Canonical.Digits.{
  digits_value-trim_left, digits_value-trim_right, scale-eq-zero, scale_add,
}
use provider_sdk.Json.Canonical.Spelled.{canonical_number-IsSpelled}
use provider_sdk.Json.Canonical.Trimmed.{
  trim_left_zeros-NoLeadingZero, trim_left_zeros-digits, trim_right_zeros-digits,
  trim_right_zeros-head, trim_right_zeros-last,
}
use provider_sdk.Json.Canonical.Unique.{NoLeadingZero}

-- Digits without a zero at either end, and how many zeros were taken off the right.
pub record IsNormal (text : Text) (x : Decimal) : Type 0 where
  pub digits : Text
  pub zeros : ℕ
  pub is_shown : text ≡ sign_text x.negative ++ (digits ++ exponent_text (raised x.exponent zeros))
  pub all_digits : all is_digit digits ≡ true
  pub first_digit : (b : ℕ) × (rest : Text) × (digits ≡ b ∷ rest) × (b ≢ 48)
  pub last_digit : digits_value 0 digits % 10 ≢ 0
  pub is_scaled : x.mantissa ≡ digits_value 0 digits * 10 ^ zeros

abbrev pub IsZero : Text → Decimal → Type 0
IsZero text x = (text ≡ bytes "0") × (x.mantissa ≡ 0)

no_digits : digits_value 0 [] ≡ 0
unfolding digits_value
no_digits = refl

spell-cases :
    (s : Text) (x : Decimal)
    → all is_digit s ≡ true
    → NoLeadingZero s
    → x.mantissa ≡ digits_value 0 s
    → (text : Text)
    → text ≡ (
        if is_empty s
        then bytes "0"
        else sign_text x.negative
          ++ (trim_right_zeros s
              ++ exponent_text (raised x.exponent (length s - length (trim_right_zeros s)))))
    → IsZero text x ⊎ IsNormal text x
spell-cases [] x h first worth text e = inl (e, worth ∙ no_digits)
spell-cases (b ∷ s) x h first worth text e = inr record {
  digits = trim_right_zeros (b ∷ s);
  zeros = length (b ∷ s) - length (trim_right_zeros (b ∷ s));
  is_shown = e;
  all_digits = trim_right_zeros-digits (b ∷ s) h;
  first_digit = let (rest, kept) = trim_right_zeros-head b s first in (b, rest, kept, first);
  last_digit = elim (trim_right_zeros-last 0 (b ∷ s) h) [
    | inl nothing ↦ absurd (cc (nothing, (trim_right_zeros-head b s first).1))
    | inr last ↦ last
  ];
  is_scaled = worth ∙ (digits_value-trim_right 0 (b ∷ s)).1;
}

pub read-cases :
    (v : Text) (x : Decimal)
    → rat_of v ≡ some x
    → IsZero (canonical_number v) x ⊎ IsNormal (canonical_number v) x
unfolding spell
read-cases v x h =
    let read = canonical_number-IsSpelled v x h in
    spell-cases (trim_left_zeros read.digits) x (trim_left_zeros-digits read.digits read.all_digits)
      (trim_left_zeros-NoLeadingZero read.digits)
      (read.is_mantissa ∙ sym (digits_value-trim_left read.digits)) (canonical_number v)
      read.is_spelled

pub magnitude-normal : (text : Text) (x y : Decimal) → IsNormal text x → magnitude x y ≢ 0
unfolding magnitude
magnitude-normal text x y n e =
    let no_value =
      scale-eq-zero (digits_value 0 n.digits) n.zeros (
        sym n.is_scaled ∙ scale-eq-zero x.mantissa (pos_part x.exponent + neg_part y.exponent) e) in
    n.last_digit (rw no_value refl)

-- The magnitude by the digits that are spelled.
pub magnitude-digits :
    (text : Text) (x y : Decimal) (n : IsNormal text x)
    → magnitude x y
      ≡ digits_value 0 n.digits * 10 ^ (n.zeros + (pos_part x.exponent + neg_part y.exponent))
unfolding magnitude
magnitude-digits text x y n =
    ap (λ (m : ℕ). m * 10 ^ (pos_part x.exponent + neg_part y.exponent)) n.is_scaled
    ∙ sym (scale_add (digits_value 0 n.digits) n.zeros (pos_part x.exponent + neg_part y.exponent))
