-- ===== src/Json/Canonical/Trimmed.antt =====
-- The digits that are left when the zeros at both ends of a text are taken off.
use provider_sdk.Base.{
  Bool-cases, [], all, arith, eq_iff, false, inl, inr, list_eq, nat_eq, refl, true, ℕ, ◌%◌, ◌*◌,
  ◌+◌, ◌-◌, ◌==◌, ◌∷◌, ◌≡◌, ◌≢◌, ◌≤◌, ◌⊎◌,
}
use provider_sdk.Selection.{selector_eq}
use provider_sdk.Text.{Text}
use provider_sdk.Json.Canonical.{trim_left_zeros, trim_right_zeros}
use provider_sdk.Json.Number.{digits_value}
use provider_sdk.Text.Patterns.{is_digit}
use provider_sdk.Json.Canonical.Digits.{trimmed_step}
use provider_sdk.Json.Canonical.Unique.{NoLeadingZero, digit_bounds}

pub trim_left_zeros-digits :
    (s : Text) → all is_digit s ≡ true → all is_digit (trim_left_zeros s) ≡ true
unfolding trim_left_zeros
trim_left_zeros-digits [] h = h
trim_left_zeros-digits (b ∷ s) h = ground (arith, trim_left_zeros-digits s)

pub trim_left_zeros-NoLeadingZero : (s : Text) → NoLeadingZero (trim_left_zeros s)
unfolding trim_left_zeros
trim_left_zeros-NoLeadingZero [] = tt
trim_left_zeros-NoLeadingZero (b ∷ s) = elim (Bool-cases (b == 48)) [
  | inl zero' ↦ rw zero' (trim_left_zeros-NoLeadingZero s)
  | inr other ↦ rw other (λ (e : b ≡ 48). ground (arith, other, eq_iff b 48))
]

digits_of_step :
    (b : ℕ) (rest : Text)
    → all is_digit (b ∷ rest) ≡ true
    → all is_digit (trimmed_step b rest) ≡ true
unfolding trimmed_step
digits_of_step b [] h = ground arith
digits_of_step b (y ∷ rest) h = ground arith

digit_first :
    (b : ℕ) (s : Text) → 48 ≤ b → b ≤ 57 → all is_digit s ≡ true → all is_digit (b ∷ s) ≡ true
digit_first b s low high h = ground arith

pub trim_right_zeros-digits :
    (s : Text) → all is_digit s ≡ true → all is_digit (trim_right_zeros s) ≡ true
unfolding trim_right_zeros trimmed_step
trim_right_zeros-digits [] h = h
trim_right_zeros-digits (b ∷ s) h =
    let (low, high, others) = digit_bounds b s h in
    digits_of_step b (trim_right_zeros s)
      (digit_first b (trim_right_zeros s) low high (trim_right_zeros-digits s others))

other_digit : (acc b : ℕ) → 48 ≤ b → b ≤ 57 → b ≢ 48 → (acc * 10 + (b - 48)) % 10 ≢ 0
other_digit acc b low high other e = omega arith

-- Digits that are empty or end with another digit than zero.
last_of_step :
    (acc b : ℕ) (rest : Text)
    → 48 ≤ b
    → b ≤ 57
    → (rest ≡ []) ⊎ (digits_value (acc * 10 + (b - 48)) rest % 10 ≢ 0)
    → (trimmed_step b rest ≡ []) ⊎ (digits_value acc (trimmed_step b rest) % 10 ≢ 0)
unfolding digits_value trimmed_step
last_of_step acc b [] low high h = elim (Bool-cases (b == 48)) [
  | inl zero' ↦ rw zero' (inl refl)
  | inr other ↦
      rw other
        (inr (λ e. other_digit acc b low high (λ z. absurd (cc (other, (eq_iff b 48).1 z))) e))
]
last_of_step acc b (y ∷ rest) low high (inl h) = absurd (cc h)
last_of_step acc b (y ∷ rest) low high (inr h) = elim (Bool-cases (b == 48)) [
  | inl zero' ↦ rw zero' (inr h)
  | inr other ↦ rw other (inr h)
]

pub trim_right_zeros-last :
    (acc : ℕ) (s : Text)
    → all is_digit s ≡ true
    → (trim_right_zeros s ≡ []) ⊎ (digits_value acc (trim_right_zeros s) % 10 ≢ 0)
unfolding trim_right_zeros trimmed_step
trim_right_zeros-last acc [] h = inl refl
trim_right_zeros-last acc (b ∷ s) h =
    let (low, high, others) = digit_bounds b s h in
    last_of_step acc b (trim_right_zeros s) low high
      (trim_right_zeros-last (acc * 10 + (b - 48)) s others)

-- The first digit stays if it is not zero.
pub trim_right_zeros-head :
    (b : ℕ) (s : Text) → b ≢ 48 → (rest : Text) × (trim_right_zeros (b ∷ s) ≡ b ∷ rest)
unfolding trim_right_zeros
trim_right_zeros-head b s other =
    let kept : (b == 48) ≡ false = ground (arith, eq_iff b 48) in (trim_right_zeros s, rw kept refl)
