-- ===== src/Limits/Unread.antt =====
-- When `ParameterLimits.Validate` dereferences nil at the bounds of a field.
use provider_sdk.Base.{
  Bool-cases, Option, Result, arith, err, hang, inl, inr, is_present, none, not, ok, panic, pass,
  refl, reject, some, true, ◌>>=◌, ◌||◌, ◌↔◌, ◌≡◌, ◌⊎◌,
}
use mathlib.Core.Path.{subst}
use Prim.Native.Nat.{Ordering}
use provider_sdk.Limits.Panics.{check_bound-IsSettled, reject-IsSettled}
use provider_sdk.Json.{Tokenizer}
use provider_sdk.Limits.{ParameterLimit, check_bound, check_bounds, check_order, is_numeric_type}
use provider_sdk.Text.{Text}
use provider_sdk.Json.Equality.{is_gt}
use provider_sdk.Json.Fuel.{IsSettled}
use provider_sdk.Json.Number.{Decimal, compare_number, compare_rats, rat_of}

-- The bounds of a numeric field that the validation compares and cannot compare: both are given and
-- decode to numbers of the field's type, and one of them is no text that `big.Rat` reads.
pub record IsUnread ⦃t : Tokenizer⦄ (limit : ParameterLimit) : Type 0 where
  pub low : Text
  pub high : Text
  pub minimum : limit.minimum ≡ some low
  pub maximum : limit.maximum ≡ some high
  pub numeric : is_numeric_type limit.kind ≡ true
  pub low_fits : check_bound limit.kind (some low) ≡ pass
  pub high_fits : check_bound limit.kind (some high) ≡ pass
  pub unread : (rat_of low ≡ none) ⊎ (rat_of high ≡ none)

compare_number-panics_iff :
    (a b : Text) → (compare_number a b ≡ panic) ↔ ((rat_of a ≡ none) ⊎ (rat_of b ≡ none))
unfolding compare_number compare_rats
compare_number-panics_iff a b = go (rat_of a) (rat_of b)
  where
    go : (x y : Option Decimal) → (compare_rats x y ≡ panic) ↔ ((x ≡ none) ⊎ (y ≡ none))
    go none y = (λ _. inl refl, λ _. refl)
    go (some x) none = (λ _. inr refl, λ _. refl)
    go (some x) (some y) = (λ e. cc e, λ o. elim o [ inl e ↦ cc e | inr e ↦ cc e ])

-- A sequence panics in its second part, if the first one settles.
panics_later :
    {A B : Type 0} (m : Result A) (f : A → Result B)
    → IsSettled m
    → (m >>= f) ≡ panic
    → (a : A) × (m ≡ ok a) × (f a ≡ panic)
panics_later (ok a) f settled e = (a, refl, e)
panics_later (err message) f settled e = cc e
panics_later panic f settled e = absurd settled
panics_later hang f settled e = absurd settled

check_order-panics :
    (low high : Option Text)
    → check_order low high ≡ panic
    → (a : Text) × (b : Text) × (low ≡ some a) × (high ≡ some b) × (compare_number a b ≡ panic)
unfolding check_order
check_order-panics none high e = cc e
check_order-panics (some a) none e = cc e
check_order-panics (some a) (some b) e = (a, b, refl, refl, go (compare_number a b) e)
  where
    go :
        (c : Result Ordering)
        → (c >>= λ o. reject (is_gt o) "parameter range is inverted") ≡ panic
        → c ≡ panic
    go (ok o) e = absurd (ground arith)
    go (err message) e = cc e
    go panic e = refl
    go hang e = cc e

module _ ⦃t : Tokenizer⦄ (limit : ParameterLimit) where
  IsUnread-panic : IsUnread limit → check_bounds limit ≡ panic
  unfolding check_bounds check_order
  IsUnread-panic u =
      let stuck = (compare_number-panics_iff u.low u.high).1 u.unread in
      rw (u.minimum, u.maximum, is_present) (rw (u.numeric, u.low_fits, u.high_fits, stuck) refl)

  panic-IsUnread : check_bounds limit ≡ panic → IsUnread limit
  unfolding check_bounds
  panic-IsUnread e = elim (Bool-cases (is_present limit.minimum || is_present limit.maximum)) [
    | inl given ↦
        let (_, numeric, e₁) =
          panics_later (reject (not (is_numeric_type limit.kind)) _) _
            (reject-IsSettled (not (is_numeric_type limit.kind)) _) (rw given at e) in
        let (_, low_fits, e₂) =
          panics_later (check_bound limit.kind limit.minimum) _
            (check_bound-IsSettled limit.kind limit.minimum) e₁ in
        let (_, high_fits, e₃) =
          panics_later (check_bound limit.kind limit.maximum) _
            (check_bound-IsSettled limit.kind limit.maximum) e₂ in
        let (low, high, el, eh, stuck) = check_order-panics limit.minimum limit.maximum e₃ in
        record {
          low = low;
          high = high;
          minimum = el;
          maximum = eh;
          numeric = ground arith;
          low_fits = subst (λ o. check_bound limit.kind o ≡ pass) el low_fits;
          high_fits = subst (λ o. check_bound limit.kind o ≡ pass) eh high_fits;
          unread = (compare_number-panics_iff low high).0 stuck;
        }
    | inr missing ↦ absurd (cc (rw missing at e))
  ]

-- The check of a field's bounds panics for exactly these fields: the type is numeric, the minimum and the
-- maximum are both given and decode to numbers of the type, and one of them is no text that `big.Rat`
-- reads (as a number between blanks is).
pub check_bounds-panics_iff :
    ⦃t : Tokenizer⦄ (limit : ParameterLimit) → (check_bounds limit ≡ panic) ↔ IsUnread limit
check_bounds-panics_iff limit = (panic-IsUnread limit, IsUnread-panic limit)
