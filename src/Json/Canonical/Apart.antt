-- ===== src/Json/Canonical/Apart.antt =====
-- Digits and an exponent can be told apart again in the text that joins them.
use mathlib.Core.Path.{ap₂, subst}
use provider_sdk.Base.Int.{negsuc, pos, ℤ}
use provider_sdk.Base.{[], all, ap, arith, refl, suc, sym, true, zero, ℕ, ◌++◌, ◌∙◌, ◌∷◌, ◌≡◌}
use provider_sdk.Text.{Text}
use provider_sdk.Json.Canonical.{digits_onto, exponent_text, itoa}
use provider_sdk.Json.Number.{digits_value}
use provider_sdk.Text.Patterns.{is_digit}
use provider_sdk.Json.Canonical.Unique.{digit_bounds, digits_onto-digits, digits_value-digits_onto}

unjoin : {b c : ℕ} {s t : Text} → b ∷ s ≡ c ∷ t → (b ≡ c) × (s ≡ t)
unjoin e = (cc, cc)

itoa-digits : (n : ℕ) → all is_digit (itoa (pos n)) ≡ true
unfolding itoa
itoa-digits n = digits_onto-digits (suc n) n [] refl

no_minus : (n : ℕ) (s : Text) → ¬ (itoa (pos n) ≡ b'-' ∷ s)
no_minus n s e =
    let minus : all is_digit (b'-' ∷ s) ≡ true =
      subst (λ t. all is_digit t ≡ true) e (itoa-digits n) in
    let (low, _, _) = digit_bounds b'-' s minus in omega (arith, low)

digits_of-inj : (m n : ℕ) → digits_onto (suc m) m [] ≡ digits_onto (suc n) n [] → m ≡ n
unfolding digits_value
digits_of-inj m n e =
    sym (digits_value-digits_onto (suc m) m [] (omega arith))
    ∙ (ap (digits_value 0) e ∙ digits_value-digits_onto (suc n) n [] (omega arith))

itoa-inj : (x y : ℤ) → itoa x ≡ itoa y → x ≡ y
unfolding itoa
itoa-inj (pos m) (pos n) e = ap pos (digits_of-inj m n e)
itoa-inj (pos m) (negsuc n) e = absurd (no_minus m _ e)
itoa-inj (negsuc m) (pos n) e = absurd (no_minus n _ (sym e))
itoa-inj (negsuc m) (negsuc n) e =
    let same = digits_of-inj (suc m) (suc n) (unjoin e).1 in ap negsuc (omega (arith, same))

-- Texts that are empty or start with the exponent's mark.
abbrev IsMarked : Text → Type 0
IsMarked [] = Unit
IsMarked (b ∷ s) = b ≡ b'e'

exponent_text-IsMarked : (z : ℤ) → IsMarked (exponent_text z)
exponent_text-IsMarked (pos zero) = tt
exponent_text-IsMarked (pos (suc n)) = refl
exponent_text-IsMarked (negsuc n) = refl

pub exponent_text-inj : (x y : ℤ) → exponent_text x ≡ exponent_text y → x ≡ y
exponent_text-inj (pos zero) (pos zero) e = refl
exponent_text-inj (pos zero) (pos (suc n)) e = absurd (cc e)
exponent_text-inj (pos zero) (negsuc n) e = absurd (cc e)
exponent_text-inj (pos (suc m)) (pos zero) e = absurd (cc e)
exponent_text-inj (negsuc m) (pos zero) e = absurd (cc e)
exponent_text-inj (pos (suc m)) (pos (suc n)) e = itoa-inj (pos (suc m)) (pos (suc n)) (unjoin e).1
exponent_text-inj (pos (suc m)) (negsuc n) e = itoa-inj (pos (suc m)) (negsuc n) (unjoin e).1
exponent_text-inj (negsuc m) (pos (suc n)) e = itoa-inj (negsuc m) (pos (suc n)) (unjoin e).1
exponent_text-inj (negsuc m) (negsuc n) e = itoa-inj (negsuc m) (negsuc n) (unjoin e).1

digit_or_mark :
    (b : ℕ) (s t marked : Text)
    → IsMarked marked
    → all is_digit (b ∷ s) ≡ true
    → ¬ (marked ≡ (b ∷ s) ++ t)
digit_or_mark b s t [] is_marked h e = cc e
digit_or_mark b s t (c ∷ marked) is_marked h e =
    let (_, high, _) = digit_bounds b s h in
    let same = (unjoin e).0 in omega (arith, high, is_marked, same)

marked_apart :
    (s t m n : Text)
    → all is_digit s ≡ true
    → all is_digit t ≡ true
    → IsMarked m
    → IsMarked n
    → s ++ m ≡ t ++ n
    → (s ≡ t) × (m ≡ n)
marked_apart [] [] m n h k a b e = (refl, e)
marked_apart [] (c ∷ t) m n h k a b e = absurd (digit_or_mark c t n m a k e)
marked_apart (c ∷ s) [] m n h k a b e = absurd (digit_or_mark c s m n b h (sym e))
marked_apart (c ∷ s) (d ∷ t) m n h k a b e =
    let (same, rest) = unjoin e in
    let (_, _, s_digits) = digit_bounds c s h in
    let (_, _, t_digits) = digit_bounds d t k in
    let (same_rest, same_mark) = marked_apart s t m n s_digits t_digits a b rest in
    (ap₂ (λ (x : ℕ) (u : Text). x ∷ u) same same_rest, same_mark)

-- Two numbers' digits and exponents are those of the texts that join them.
pub digits_exponent-inj :
    (s t : Text) (x y : ℤ)
    → all is_digit s ≡ true
    → all is_digit t ≡ true
    → s ++ exponent_text x ≡ t ++ exponent_text y
    → (s ≡ t) × (x ≡ y)
digits_exponent-inj s t x y h k e =
    let (digits, exponents) =
      marked_apart s t (exponent_text x) (exponent_text y) h k (exponent_text-IsMarked x)
        (exponent_text-IsMarked y) e in
    (digits, exponent_text-inj x y exponents)
