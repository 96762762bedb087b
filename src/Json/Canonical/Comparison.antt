-- ===== src/Json/Canonical/Comparison.antt =====
-- When `rat_cmp` finds two decimals equal.
use native.Mathlib.Nat.{zero-mul}
use Prim.Native.Nat.{compare, Ordering}
use provider_sdk.Base.{
  Bool, Bool-cases, ap, arith, false, if◌then◌else◌, inl, inr, leb, refl, true, ℕ, ◌*◌, ◌+◌, ◌^◌,
  ◌↔◌, ◌∙◌, ◌≡◌, ◌≢◌,
}
use provider_sdk.Base.Int.{neg_part, negsuc, pos, pos_part, sub_ℕ}
use provider_sdk.Json.Number.{Decimal, magnitude, rat_cmp}

pub sub_ℕ-inj : (a b c d : ℕ) → sub_ℕ a b ≡ sub_ℕ c d → a + d ≡ c + b
sub_ℕ-inj a b c d e = ground arith

pub sub_ℕ-cong : (a b c d : ℕ) → a + d ≡ c + b → sub_ℕ a b ≡ sub_ℕ c d
sub_ℕ-cong a b c d e = elim (Bool-cases (leb b a)) [
  | inl low ↦ let low' : leb d c ≡ true = ground arith in rw (low, low') (ap pos (ground arith))
  | inr high ↦
      let high' : leb d c ≡ false = ground arith in rw (high, high') (ap negsuc (ground arith))
]

pub magnitude-zero : (x y : Decimal) → x.mantissa ≡ 0 → magnitude x y ≡ 0
unfolding magnitude
magnitude-zero x y e =
    ap (λ (m : ℕ). m * 10 ^ (pos_part x.exponent + neg_part y.exponent)) e
    ∙ zero-mul (10 ^ (pos_part x.exponent + neg_part y.exponent))

abbrev signed_compare : Bool → Bool → ℕ → ℕ → Ordering
signed_compare s t m n =
    compare ((if s then 0 else m) + (if t then n else 0))
      ((if t then 0 else n) + (if s then m else 0))

one_sign : (s t : Bool) (m n : ℕ) → s ≡ t → (signed_compare s t m n ≡ Ordering.eq) ↔ (m ≡ n)
one_sign true true m n h = ground arith
one_sign false false m n h = ground arith
one_sign true false m n h = absurd (cc h)
one_sign false true m n h = absurd (cc h)

two_signs : (s t : Bool) (m n : ℕ) → s ≢ t → (signed_compare s t m n ≡ Ordering.eq) ↔ (m + n ≡ 0)
two_signs true true m n h = absurd (h refl)
two_signs false false m n h = absurd (h refl)
two_signs true false m n h = ground arith
two_signs false true m n h = ground arith

-- Decimals of one sign are equal if their magnitudes are.
pub rat_cmp-same :
    (x y : Decimal)
    → x.negative ≡ y.negative
    → (rat_cmp x y ≡ Ordering.eq) ↔ (magnitude x y ≡ magnitude y x)
unfolding rat_cmp
rat_cmp-same x y same = one_sign x.negative y.negative (magnitude x y) (magnitude y x) same

-- Decimals of two signs are equal if both are zero.
pub rat_cmp-other :
    (x y : Decimal)
    → x.negative ≢ y.negative
    → (rat_cmp x y ≡ Ordering.eq) ↔ (magnitude x y + magnitude y x ≡ 0)
unfolding rat_cmp
rat_cmp-other x y other = two_signs x.negative y.negative (magnitude x y) (magnitude y x) other

one_zero : (s t : Bool) (m n : ℕ) → m ≡ 0 → (signed_compare s t m n ≡ Ordering.eq) ↔ (n ≡ 0)
one_zero true true m n h = ground arith
one_zero false false m n h = ground arith
one_zero true false m n h = ground arith
one_zero false true m n h = ground arith

other_zero : (s t : Bool) (m n : ℕ) → n ≡ 0 → (signed_compare s t m n ≡ Ordering.eq) ↔ (m ≡ 0)
other_zero true true m n h = ground arith
other_zero false false m n h = ground arith
other_zero true false m n h = ground arith
other_zero false true m n h = ground arith

-- Only zero is equal to zero.
pub rat_cmp-zero :
    (x y : Decimal) → x.mantissa ≡ 0 → (rat_cmp x y ≡ Ordering.eq) ↔ (magnitude y x ≡ 0)
unfolding rat_cmp
rat_cmp-zero x y h =
    one_zero x.negative y.negative (magnitude x y) (magnitude y x) (magnitude-zero x y h)

pub rat_cmp-to_zero :
    (x y : Decimal) → y.mantissa ≡ 0 → (rat_cmp x y ≡ Ordering.eq) ↔ (magnitude x y ≡ 0)
unfolding rat_cmp
rat_cmp-to_zero x y h =
    other_zero x.negative y.negative (magnitude x y) (magnitude y x) (magnitude-zero y x h)
