-- ===== src/Json/Canonical/Unique.antt =====
-- A text of digits without a zero on the left is the one of its value.
use mathlib.Core.Path.{ap₂}
use mathlib.Core.List.{append-nil}
use provider_sdk.Base.{
  Bool-cases, [], all, ap, arith, false, inl, inr, length, ltb, refl, suc, sym, true, zero, ℕ, ◌%◌,
  ◌*◌, ◌++◌, ◌+◌, ◌-◌, ◌/◌, ◌<◌, ◌∙◌, ◌∷◌, ◌≡◌, ◌≢◌, ◌≤◌,
}
use provider_sdk.Text.{Text}
use provider_sdk.Json.Canonical.{digits_onto}
use provider_sdk.Json.Number.{digits_value}
use provider_sdk.Text.Patterns.{is_digit}

pub digit_bounds :
    (b : ℕ) (s : Text) → all is_digit (b ∷ s) ≡ true → (48 ≤ b) × (b ≤ 57) × (all is_digit s ≡ true)
digit_bounds b s h = ground arith

-- A last digit goes before the rest.
digits_onto-digit :
    (f acc b : ℕ) (rest : Text)
    → 1 ≤ acc
    → 48 ≤ b
    → b ≤ 57
    → digits_onto (suc f) (acc * 10 + (b - 48)) rest ≡ digits_onto f acc (b ∷ rest)
unfolding digits_onto
digits_onto-digit f acc b rest some_value low high =
    let large : ltb (acc * 10 + (b - 48)) 10 ≡ false = ground arith in
    rw large (ap₂ (λ (n c : ℕ). digits_onto f n (c ∷ rest)) (omega arith) (omega arith))

digits_onto-last :
    (f b : ℕ) (rest : Text) → 48 ≤ b → b ≤ 57 → digits_onto (suc f) (0 + (b - 48)) rest ≡ b ∷ rest
unfolding digits_onto
digits_onto-last f b rest low high =
    let small : ltb (0 + (b - 48)) 10 ≡ true = ground arith in
    rw small (ap (λ (c : ℕ). c ∷ rest) (omega arith))

-- The digits of a value, before any other digits, from a value that is not zero.
digits_onto-digits_value :
    (s : Text) (acc f : ℕ) (rest : Text)
    → 1 ≤ acc
    → all is_digit s ≡ true
    → digits_onto (length s + suc f) (digits_value acc s) rest ≡ digits_onto (suc f) acc (s ++ rest)
unfolding digits_value
digits_onto-digits_value [] acc f rest some_value h =
    ap (λ (k : ℕ). digits_onto k acc rest) (omega arith)
digits_onto-digits_value (b ∷ s) acc f rest some_value h =
    let (low, high, others) = digit_bounds b s h in
    ap (λ (k : ℕ). digits_onto k (digits_value (acc * 10 + (b - 48)) s) rest) (omega arith)
    ∙ (digits_onto-digits_value s (acc * 10 + (b - 48)) (suc f) rest (omega arith) others
        ∙ digits_onto-digit (suc f) acc b (s ++ rest) some_value low high)

-- Texts of digits that start with another digit than zero, or are empty.
abbrev pub NoLeadingZero : Text → Type 0
NoLeadingZero [] = Unit
NoLeadingZero (b ∷ s) = b ≢ 48

digits_onto-of_value :
    (b f : ℕ) (s : Text)
    → all is_digit (b ∷ s) ≡ true
    → b ≢ 48
    → digits_onto (length s + suc f) (digits_value 0 (b ∷ s)) [] ≡ b ∷ s
unfolding digits_value
digits_onto-of_value b f s h other =
    let (low, high, others) = digit_bounds b s h in
    digits_onto-digits_value s (0 * 10 + (b - 48)) f [] (omega arith) others
    ∙ (digits_onto-last f b (s ++ []) low high ∙ ap (λ (r : Text). b ∷ r) (append-nil s))

digits_value-above : (acc : ℕ) (s : Text) → acc ≤ digits_value acc s
unfolding digits_value
digits_value-above acc [] = omega arith
digits_value-above acc (b ∷ s) = omega (arith, digits_value-above (acc * 10 + (b - 48)) s)

digits_value-positive :
    (b : ℕ) (s : Text) → all is_digit (b ∷ s) ≡ true → b ≢ 48 → 1 ≤ digits_value 0 (b ∷ s)
unfolding digits_value
digits_value-positive b s h other =
    let (low, high, others) = digit_bounds b s h in
    omega (arith, digits_value-above (0 * 10 + (b - 48)) s)

positive_apart :
    (b : ℕ) (s : Text)
    → all is_digit (b ∷ s) ≡ true
    → b ≢ 48
    → ¬ (digits_value 0 (b ∷ s) ≡ digits_value 0 [])
unfolding digits_value
positive_apart b s h other e =
    let some_value = digits_value-positive b s h other in omega (arith, some_value, e)

-- Texts of digits without a zero on the left are told apart by their values.
pub digits_value-inj :
    (s t : Text)
    → all is_digit s ≡ true
    → all is_digit t ≡ true
    → NoLeadingZero s
    → NoLeadingZero t
    → digits_value 0 s ≡ digits_value 0 t
    → s ≡ t
digits_value-inj [] [] h k a b e = refl
digits_value-inj [] (c ∷ t) h k a b e = absurd (positive_apart c t k b (sym e))
digits_value-inj (c ∷ s) [] h k a b e = absurd (positive_apart c s h a e)
digits_value-inj (c ∷ s) (d ∷ t) h k a b e =
    sym (digits_onto-of_value c (length t) s h a)
    ∙ (ap₂ (λ (n v : ℕ). digits_onto n v []) (omega arith) e
        ∙ digits_onto-of_value d (length s) t k b)

-- The value of the digits of a number, before other digits.
pub digits_value-digits_onto :
    (f n : ℕ) (rest : Text) → n < f → digits_value 0 (digits_onto f n rest) ≡ digits_value n rest
unfolding digits_value digits_onto
digits_value-digits_onto zero n rest h = absurd (omega arith)
digits_value-digits_onto (suc f) n rest h = elim (Bool-cases (ltb n 10)) [
  | inl small ↦ rw small (ap (λ (k : ℕ). digits_value k rest) (omega arith))
  | inr large ↦
      let not_small : 10 ≤ n = ground (arith, large) in
      rw large (
        digits_value-digits_onto f (n / 10) ((48 + n % 10) ∷ rest) (omega arith)
        ∙ ap (λ (k : ℕ). digits_value k rest) (omega arith))
]

pub digits_onto-digits :
    (f n : ℕ) (rest : Text) → all is_digit rest ≡ true → all is_digit (digits_onto f n rest) ≡ true
unfolding digits_onto
digits_onto-digits zero n rest h = h
digits_onto-digits (suc f) n rest h =
    ground (arith, digits_onto-digits f (n / 10) ((48 + n % 10) ∷ rest))
