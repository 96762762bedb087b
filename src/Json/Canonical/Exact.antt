-- ===== src/Json/Canonical/Exact.antt =====
-- The one spelling of a number by its value.
use mathlib.Core.Path.{ap₂, subst}
use Prim.Native.Nat.{Ordering}
use provider_sdk.Base.{
  Bool, all, ap, arith, false, inl, inr, refl, some, sym, true, ℕ, ◌*◌, ◌++◌, ◌+◌, ◌^◌, ◌↔◌, ◌∙◌,
  ◌∷◌, ◌≡◌, ◌≢◌, ◌≤◌, ◌⊎◌,
}
use provider_sdk.Text.{Text, bytes}
use provider_sdk.Base.Int.{neg_part, pos_part, ℤ}
use provider_sdk.Json.Canonical.{canonical_number, exponent_text, raised, sign_text}
use provider_sdk.Json.Number.{Decimal, digits_value, magnitude, rat_cmp, rat_of}
use provider_sdk.Text.Patterns.{is_digit}
use provider_sdk.Json.Canonical.Apart.{digits_exponent-inj}
use provider_sdk.Json.Canonical.Comparison.{
  magnitude-zero, rat_cmp-other, rat_cmp-same, rat_cmp-to_zero, rat_cmp-zero, sub_ℕ-cong, sub_ℕ-inj,
}
use provider_sdk.Json.Canonical.Digits.{strip_tens}
use provider_sdk.Json.Canonical.Normal.{
  IsNormal, IsZero, magnitude-digits, magnitude-normal, read-cases,
}
use provider_sdk.Json.Canonical.Unique.{NoLeadingZero, digit_bounds, digits_value-inj}

not_zero_text : (s : Bool) (b : ℕ) (u : Text) → b ≢ 48 → 48 ≤ b → sign_text s ++ (b ∷ u) ≢ bytes "0"
not_zero_text true b u other low e = absurd (cc e)
not_zero_text false b u other low e = other (cc e)

signs_apart :
    (s t : Bool) (b c : ℕ) (u w : Text)
    → 48 ≤ b
    → 48 ≤ c
    → sign_text s ++ (b ∷ u) ≡ sign_text t ++ (c ∷ w)
    → (s ≡ t) × (b ∷ u ≡ c ∷ w)
signs_apart true true b c u w h k e = (refl, cc e)
signs_apart true false b c u w h k e = let minus : 45 ≡ c = cc e in absurd (omega (arith, minus))
signs_apart false true b c u w h k e = let minus : b ≡ 45 = cc e in absurd (omega (arith, minus))
signs_apart false false b c u w h k e = (refl, e)

-- The text behind the sign starts with a digit other than zero.
starts_with_digit :
    (text : Text) (x : Decimal) (n : IsNormal text x)
    → (b : ℕ) × (u : Text) × (b ≢ 48)
      × (48 ≤ b)
      × (n.digits ++ exponent_text (raised x.exponent n.zeros) ≡ b ∷ u)
starts_with_digit text x n =
    let (b, rest, starts, other) = n.first_digit in
    let (low, _, _) =
      digit_bounds b rest (subst (λ t. all is_digit t ≡ true) starts n.all_digits) in
    (
      b,
      rest ++ exponent_text (raised x.exponent n.zeros),
      other,
      low,
      ap (λ (t : Text). t ++ exponent_text (raised x.exponent n.zeros)) starts,
    )

normal-not_zero : (text : Text) (x : Decimal) → IsNormal text x → text ≢ bytes "0"
normal-not_zero text x n e =
    let (b, u, other, low, starts) = starts_with_digit text x n in
    not_zero_text x.negative b u other low
      (sym (n.is_shown ∙ ap (λ (t : Text). sign_text x.negative ++ t) starts) ∙ e)

normals_spelled :
    (v w : Text) (x y : Decimal) (n : IsNormal v x) (m : IsNormal w y)
    → v ≡ w
    → (x.negative ≡ y.negative)
      × (n.digits ≡ m.digits)
      × (raised x.exponent n.zeros ≡ raised y.exponent m.zeros)
normals_spelled v w x y n m e =
    let (b, u, _, low, starts) = starts_with_digit v x n in
    let (c, t, _, low', starts') = starts_with_digit w y m in
    let (signs, texts) = signs_apart x.negative y.negative b c u t low low' (
      sym (n.is_shown ∙ ap (λ (t : Text). sign_text x.negative ++ t) starts)
      ∙ (e ∙ (m.is_shown ∙ ap (λ (t : Text). sign_text y.negative ++ t) starts'))) in
    let (digits, exponents) =
      digits_exponent-inj n.digits m.digits (raised x.exponent n.zeros) (raised y.exponent m.zeros)
        n.all_digits m.all_digits (starts ∙ (texts ∙ sym starts')) in
    (signs, digits, exponents)

leading : (text : Text) (x : Decimal) (n : IsNormal text x) → NoLeadingZero n.digits
leading text x n =
    let (b, rest, starts, other) = n.first_digit in subst NoLeadingZero (sym starts) other

normals_equal :
    (v w : Text) (x y : Decimal) (n : IsNormal v x) (m : IsNormal w y)
    → x.negative ≡ y.negative
    → magnitude x y ≡ magnitude y x
    → v ≡ w
normals_equal v w x y n m signs e =
    let (values, powers) =
      strip_tens (digits_value 0 n.digits) (digits_value 0 m.digits)
        (n.zeros + (pos_part x.exponent + neg_part y.exponent))
        (m.zeros + (pos_part y.exponent + neg_part x.exponent)) n.last_digit m.last_digit
        (sym (magnitude-digits v x y n) ∙ (e ∙ magnitude-digits w y x m)) in
    let digits =
      digits_value-inj n.digits m.digits n.all_digits m.all_digits (leading v x n) (leading w y m)
        values in
    let exponents : raised x.exponent n.zeros ≡ raised y.exponent m.zeros =
      sub_ℕ-cong (pos_part x.exponent + n.zeros) (neg_part x.exponent)
        (pos_part y.exponent + m.zeros) (neg_part y.exponent) (omega (arith, powers)) in
    n.is_shown
    ∙ (ap₂ (λ (s : Bool) (t : Text). sign_text s ++ t) signs
          (ap₂ (λ (t : Text) (z : ℤ). t ++ exponent_text z) digits exponents)
        ∙ sym m.is_shown)

signs_equal : (s t : Bool) → (s ≡ t) ⊎ (s ≢ t)
signs_equal true true = inl refl
signs_equal false false = inl refl
signs_equal true false = inr (λ e. cc e)
signs_equal false true = inr (λ e. cc e)

normals_iff :
    (v w : Text) (x y : Decimal)
    → IsNormal v x
    → IsNormal w y
    → (v ≡ w) ↔ (rat_cmp x y ≡ Ordering.eq)
normals_iff v w x y n m = (there, back)
  where
    there : v ≡ w → rat_cmp x y ≡ Ordering.eq
    there e =
        let (signs, digits, exponents) = normals_spelled v w x y n m e in
        let powers =
          sub_ℕ-inj (pos_part x.exponent + n.zeros) (neg_part x.exponent)
            (pos_part y.exponent + m.zeros) (neg_part y.exponent) exponents in
        (rat_cmp-same x y signs).1 (
          magnitude-digits v x y n
          ∙ (ap₂ (λ (t : Text) (k : ℕ). digits_value 0 t * 10 ^ k) digits (omega (arith, powers))
              ∙ sym (magnitude-digits w y x m)))

    back : rat_cmp x y ≡ Ordering.eq → v ≡ w
    back e = elim (signs_equal x.negative y.negative) [
      | inl same ↦ normals_equal v w x y n m same ((rat_cmp-same x y same).0 e)
      | inr other ↦ absurd (magnitude-normal v x y n (omega (arith, (rat_cmp-other x y other).0 e)))
    ]

-- Two numbers that can be read have the same canonical spelling exactly if they are equal: spellings of
-- one value are never told apart, and those of two values always are.
pub canonical_number_iff :
    (v w : Text) (x y : Decimal)
    → rat_of v ≡ some x
    → rat_of w ≡ some y
    → (canonical_number v ≡ canonical_number w) ↔ (rat_cmp x y ≡ Ordering.eq)
canonical_number_iff v w x y h k = either (read-cases v x h) (read-cases w y k)
  where
    either :
        IsZero (canonical_number v) x ⊎ IsNormal (canonical_number v) x
        → IsZero (canonical_number w) y ⊎ IsNormal (canonical_number w) y
        → (canonical_number v ≡ canonical_number w) ↔ (rat_cmp x y ≡ Ordering.eq)
    either (inl (a, none')) (inl (b, nothing)) =
        (λ e. (rat_cmp-zero x y none').1 (magnitude-zero y x nothing), λ e. a ∙ sym b)
    either (inl (a, none')) (inr m) = (
      λ e. absurd (normal-not_zero (canonical_number w) y m (sym e ∙ a)),
      λ e. absurd (magnitude-normal (canonical_number w) y x m ((rat_cmp-zero x y none').0 e)),
    )
    either (inr n) (inl (b, nothing)) = (
      λ e. absurd (normal-not_zero (canonical_number v) x n (e ∙ b)),
      λ e. absurd (magnitude-normal (canonical_number v) x y n ((rat_cmp-to_zero x y nothing).0 e)),
    )
    either (inr n) (inr m) = normals_iff (canonical_number v) (canonical_number w) x y n m
