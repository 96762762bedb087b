-- ===== src/Json/Canonical/Digits.antt =====
-- Decimal digits and powers of ten: what the zeros at either end of a text are worth.
use native.Mathlib.Nat.{mul_assoc, pow-suc}
use provider_sdk.Base.{
  Bool-cases, [], ap, arith, eq_iff, if◌then◌else◌, inl, inr, is_empty, length, list_eq, nat_eq,
  refl, suc, sym, zero, ℕ, ◌%◌, ◌&&◌, ◌*◌, ◌+◌, ◌-◌, ◌==◌, ◌^◌, ◌∙◌, ◌∷◌, ◌≡◌, ◌≢◌, ◌≤◌,
}
use provider_sdk.Text.{Text}
use provider_sdk.Json.Canonical.{trim_left_zeros, trim_right_zeros}
use provider_sdk.Json.Number.{digits_value}
use provider_sdk.Selection.{selector_eq}

pub scale_suc : (m n : ℕ) → m * 10 ^ suc n ≡ 10 * (m * 10 ^ n)
scale_suc m n = ap (λ (k : ℕ). m * k) (pow-suc 10 n) ∙ (sym (mul_assoc m (10 ^ n) 10) ∙ omega arith)

-- Numbers that do not end in a zero are told apart by their value at any powers of ten.
pub strip_tens :
    (m m' a b : ℕ) → m % 10 ≢ 0 → m' % 10 ≢ 0 → m * 10 ^ a ≡ m' * 10 ^ b → (m ≡ m') × (a ≡ b)
strip_tens m m' zero zero h h' e = (omega arith, refl)
strip_tens m m' (suc a) (suc b) h h' e =
    let (same, powers) = strip_tens m m' a b h h' (omega (arith, scale_suc m a, scale_suc m' b)) in
    (same, omega arith)
strip_tens m m' (suc a) zero h h' e = absurd (h' (omega (arith, scale_suc m a)))
strip_tens m m' zero (suc b) h h' e = absurd (h (omega (arith, scale_suc m' b)))

pub scale_add : (m a b : ℕ) → m * 10 ^ (a + b) ≡ (m * 10 ^ a) * 10 ^ b
scale_add m a zero =
    let step : m * 10 ^ (a + 0) ≡ m * 10 ^ a = ap (λ (k : ℕ). m * 10 ^ k) (omega arith) in
    omega (arith, step)
scale_add m a (suc b) =
    let step : m * 10 ^ (a + suc b) ≡ m * 10 ^ suc (a + b) =
      ap (λ (k : ℕ). m * 10 ^ k) (omega arith) in
    omega (arith, step, scale_suc m (a + b), scale_suc (m * 10 ^ a) b, scale_add m a b)

pub scale-eq-zero : (m n : ℕ) → m * 10 ^ n ≡ 0 → m ≡ 0
scale-eq-zero m zero e = omega arith
scale-eq-zero m (suc n) e = scale-eq-zero m n (omega (arith, scale_suc m n))

-- Zeros on the left are worth nothing.
pub digits_value-trim_left : (s : Text) → digits_value 0 (trim_left_zeros s) ≡ digits_value 0 s
unfolding digits_value trim_left_zeros
digits_value-trim_left [] = refl
digits_value-trim_left (b ∷ s) = ground (arith, digits_value-trim_left s)

-- One byte before a text whose zeros on the right were taken off.
unfoldable pub trimmed_step : ℕ → Text → Text
trimmed_step b rest = if b == b'0' && is_empty rest then [] else b ∷ rest

zero_step : (acc b n : ℕ) → b ≡ 48 → (acc * 10 + (b - 48)) * 10 ^ (n - 0) ≡ acc * 10 ^ (suc n - 0)
zero_step acc b n is_zero =
    let whole : (acc * 10 + (b - 48)) * 10 ^ (n - 0) ≡ (acc * 10) * 10 ^ n =
      ap (λ (k : ℕ). k * 10 ^ (n - 0)) (omega arith)
      ∙ ap (λ (k : ℕ). (acc * 10) * 10 ^ k) (omega arith) in
    let swapped : (acc * 10) * 10 ^ n ≡ 10 * (acc * 10 ^ n) =
      ap (λ (k : ℕ). k * 10 ^ n) (omega arith) ∙ mul_assoc 10 acc (10 ^ n) in
    let power : acc * 10 ^ (suc n - 0) ≡ acc * 10 ^ suc n =
      ap (λ (k : ℕ). acc * 10 ^ k) (omega arith) in
    whole ∙ (swapped ∙ (sym (scale_suc acc n) ∙ sym power))

trimmed_step_value :
    (acc b n : ℕ) (rest : Text)
    → (v : ℕ) → length rest ≤ n
    → v ≡ digits_value (acc * 10 + (b - 48)) rest * 10 ^ (n - length rest)
    → (length (trimmed_step b rest) ≤ suc n)
      × (v ≡ digits_value acc (trimmed_step b rest) * 10 ^ (suc n - length (trimmed_step b rest)))
unfolding trimmed_step digits_value
trimmed_step_value acc b n (y ∷ rest) v le e = elim (Bool-cases (b == 48)) [
  | inl zero' ↦ rw zero' (omega arith, e ∙ kept_step)
  | inr other ↦ rw other (omega arith, e ∙ kept_step)
]
  where
    kept_step :
        digits_value (acc * 10 + (b - 48)) (y ∷ rest) * 10 ^ (n - length (y ∷ rest))
        ≡ digits_value (acc * 10 + (b - 48)) (y ∷ rest) * 10 ^ (suc n - length (b ∷ y ∷ rest))
    kept_step = ap (λ (k : ℕ). digits_value (acc * 10 + (b - 48)) (y ∷ rest) * 10 ^ k) (omega arith)
trimmed_step_value acc b n [] v le e = elim (Bool-cases (b == 48)) [
  | inl zero' ↦ rw zero' (omega arith, e ∙ zero_step acc b n ((eq_iff b 48).0 zero'))
  | inr other ↦
      rw other (omega arith, e ∙ ap (λ (k : ℕ). (acc * 10 + (b - 48)) * 10 ^ k) (omega arith))
]

-- A zero on the right is worth a factor of ten.
pub digits_value-trim_right :
    (acc : ℕ) (s : Text)
    → (length (trim_right_zeros s) ≤ length s)
      × (digits_value acc s
          ≡ digits_value acc (trim_right_zeros s) * 10 ^ (length s - length (trim_right_zeros s)))
unfolding digits_value trim_right_zeros trimmed_step
digits_value-trim_right acc [] = (omega arith, omega arith)
digits_value-trim_right acc (b ∷ s) =
    let (le, e) = digits_value-trim_right (acc * 10 + (b - 48)) s in
    trimmed_step_value acc b (length s) (trim_right_zeros s) (digits_value (acc * 10 + (b - 48)) s)
      le e
