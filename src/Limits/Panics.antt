-- ===== src/Limits/Panics.antt =====
-- Which limits can be evaluated without a panic.
use Prim.Native.Nat.{Ordering}
use mathlib.Core.Path.{subst}
use mathlib.Core.Option.{some-injective}
use provider_sdk.Base.{
  Bool, Bool-cases, List, Option, Result, String, [], arith, elements, err, false, hang,
  if◌then◌else◌, inl, inr, is_present, list_eq, nat_eq, none, not, ok, panic, pass, refl, reject,
  relabel, some, true, ℕ, ◌+◌, ◌==◌, ◌>>=◌, ◌||◌, ◌∷◌, ◌≡◌,
}
use provider_sdk.Json.{
  Items, Members, Tokenizer, Value, arr, bool, cons, decode_parameter_json, end, member, nil, null,
  num, obj, str,
}
use provider_sdk.Limits.{
  ParameterLimit, at_least, at_most, check_allowed, check_bound, check_bounds, check_field,
  check_order, fits, in_bounds, is_numeric_type,
}
use provider_sdk.Selection.{selector_eq}
use provider_sdk.Text.{Text}
use provider_sdk.Json.Bounds.{
  IsDecoded, ItemsDecoded, MembersDecoded, decode_parameter_json-IsDecoded,
}
use provider_sdk.Json.Equality.{
  count_items, count_members, equal_found, equal_items, equal_members, is_gt, member_of,
  parameter_equal, parameter_type,
}
use provider_sdk.Json.Fuel.{IsSettled, decode_parameter_json-IsSettled}
use provider_sdk.Json.Number.{Decimal, compare_number, compare_rats, rat_cmp, rat_of}

module _ {A B : Type 0} where
  pub IsSettled-bind :
      (m : Result A) (f : A → Result B)
      → IsSettled m
      → ((a : A) → m ≡ ok a → IsSettled (f a))
      → IsSettled (m >>= f)
  IsSettled-bind (ok a) f h rest = rest a refl
  IsSettled-bind (err message) f h rest = tt
  IsSettled-bind panic f h rest = absurd h
  IsSettled-bind hang f h rest = absurd h

pub reject-IsSettled : (b : Bool) (message : String) → IsSettled (reject b message)
reject-IsSettled true message = tt
reject-IsSettled false message = tt

relabel-IsSettled :
    {A : Type 0} (m : Result A) (message : String) → IsSettled m → IsSettled (relabel m message)
relabel-IsSettled (ok a) message h = tt
relabel-IsSettled (err e) message h = tt
relabel-IsSettled panic message h = h
relabel-IsSettled hang message h = h

relabel-eq-ok :
    {A : Type 0} (m : Result A) (a : A) (message : String) → relabel m message ≡ ok a → m ≡ ok a
relabel-eq-ok (ok a) b message h = h
relabel-eq-ok (err e) b message h = cc
relabel-eq-ok panic b message h = h
relabel-eq-ok hang b message h = h

-- A text that `big.Rat` reads.
abbrev pub IsReadable : Text → Type 0
IsReadable n = (x : Decimal) × (rat_of n ≡ some x)

abbrev pub BoundReadable : Option Text → Type 0
BoundReadable none = Unit
BoundReadable (some n) = IsReadable n

compare_number-ok :
    (a b : Text) → IsReadable a → IsReadable b → (c : Ordering) × (compare_number a b ≡ ok c)
unfolding compare_number
compare_number-ok a b (x, ea) (y, eb) = (rat_cmp x y, rw (ea, eb, compare_rats))

compare_number-IsSettled :
    (a b : Text) → IsReadable a → IsReadable b → IsSettled (compare_number a b)
compare_number-IsSettled a b ra rb = rw ((compare_number-ok a b ra rb).1) tt

at_least-IsSettled :
    (n : Text) (bound : Option Text)
    → IsReadable n
    → BoundReadable bound
    → IsSettled (at_least n bound)
unfolding at_least
at_least-IsSettled n none rn rb = tt
at_least-IsSettled n (some b) rn rb =
    IsSettled-bind (compare_number n b) _ (compare_number-IsSettled n b rn rb) (λ c _. tt)

at_most-IsSettled :
    (n : Text) (bound : Option Text)
    → IsReadable n
    → BoundReadable bound
    → IsSettled (at_most n bound)
unfolding at_most
at_most-IsSettled n none rn rb = tt
at_most-IsSettled n (some b) rn rb =
    IsSettled-bind (compare_number n b) _ (compare_number-IsSettled n b rn rb) (λ c _. tt)

-- A limit both whose bounds are plain numbers.
pub record IsReadableLimit (limit : ParameterLimit) : Type 0 where
  pub low : BoundReadable limit.minimum
  pub high : BoundReadable limit.maximum

pub if-IsSettled :
    {A : Type 0} (b : Bool) (x y : Result A)
    → IsSettled x
    → IsSettled y
    → IsSettled (if b then x else y)
if-IsSettled true x y hx hy = hx
if-IsSettled false x y hx hy = hy

in_bounds-IsSettled :
    (limit : ParameterLimit) (depth : ℕ) (v : Value)
    → IsReadableLimit limit
    → IsDecoded depth v
    → IsSettled (in_bounds limit v)
unfolding in_bounds
in_bounds-IsSettled limit depth (num n) r (_, number) =
    IsSettled-bind (at_least n limit.minimum) _
      (at_least-IsSettled n limit.minimum (number.value, number.reads) r.low)
      (λ enough _.
        if-IsSettled enough (at_most n limit.maximum) (ok false)
          (at_most-IsSettled n limit.maximum (number.value, number.reads) r.high) tt)
in_bounds-IsSettled limit depth null r h = tt
in_bounds-IsSettled limit depth _ r h = tt

pub fits-IsSettled :
    (limit : ParameterLimit) (depth : ℕ) (v : Value)
    → IsReadableLimit limit
    → IsDecoded depth v
    → IsSettled (fits limit v)
unfolding fits
fits-IsSettled limit depth v r h =
    if-IsSettled (parameter_type v limit.kind) (in_bounds limit v) (ok false)
      (in_bounds-IsSettled limit depth v r h) tt

equal_found-IsSettled :
    (same_as : Value → Result Bool) (w : Option Value) (rest : Result Bool)
    → ((v : Value) → w ≡ some v → IsSettled (same_as v))
    → IsSettled rest
    → IsSettled (equal_found same_as w rest)
unfolding equal_found
equal_found-IsSettled same_as none rest h hr = tt
equal_found-IsSettled same_as (some w) rest h hr =
    IsSettled-bind (same_as w) _ (h w refl) (λ same _. if-IsSettled same rest (ok false) hr tt)

pub member_of-IsDecoded :
    (depth : ℕ) (k : Text) (ms : Members) (v : Value)
    → MembersDecoded depth ms
    → member_of k ms ≡ some v
    → IsDecoded depth v
member_of-IsDecoded depth k end v h e = cc
member_of-IsDecoded depth k (member j w ms) v (hw, h) e = elim (Bool-cases (j == k)) [
  | inl same ↦ subst (IsDecoded depth) (some-injective w v (rw same at e)) hw
  | inr other ↦ member_of-IsDecoded depth k ms v h (rw other at e)
]

mutual
  unfolding parameter_equal

  pub parameter_equal-IsSettled :
      (depth depth' : ℕ) (v w : Value)
      → IsDecoded depth v
      → IsDecoded depth' w
      → IsSettled (parameter_equal v w)
  parameter_equal-IsSettled depth depth' (num x) (num y) (_, hx) (_, hy) =
      IsSettled-bind (compare_number x y) _
        (compare_number-IsSettled x y (hx.value, hx.reads) (hy.value, hy.reads)) (λ c _. tt)
  parameter_equal-IsSettled depth depth' (obj x) (obj y) (_, _, hx) (_, _, hy) =
      if-IsSettled (count_members x == count_members y) (equal_members x y) (ok false)
        (equal_members-IsSettled (depth + 1) (depth' + 1) x y hx hy) tt
  parameter_equal-IsSettled depth depth' (arr x) (arr y) (_, hx) (_, hy) =
      if-IsSettled (count_items x == count_items y) (equal_items x y) (ok false)
        (equal_items-IsSettled (depth + 1) (depth' + 1) x y hx hy) tt
  parameter_equal-IsSettled depth depth' null null hv hw = tt
  parameter_equal-IsSettled depth depth' (bool a) (bool b) hv hw = tt
  parameter_equal-IsSettled depth depth' (str a) (str b) hv hw = tt
  parameter_equal-IsSettled depth depth' _ _ hv hw = tt

  equal_members-IsSettled :
      (depth depth' : ℕ) (x y : Members)
      → MembersDecoded depth x
      → MembersDecoded depth' y
      → IsSettled (equal_members x y)
  equal_members-IsSettled depth depth' end y hx hy = tt
  equal_members-IsSettled depth depth' (member k v x) y (hv, hx) hy =
      equal_found-IsSettled (parameter_equal v) (member_of k y) (equal_members x y)
        (λ w found.
          parameter_equal-IsSettled depth depth' v w hv (member_of-IsDecoded depth' k y w hy found))
        (equal_members-IsSettled depth depth' x y hx hy)

  equal_items-IsSettled :
      (depth depth' : ℕ) (x y : Items)
      → ItemsDecoded depth x
      → ItemsDecoded depth' y
      → IsSettled (equal_items x y)
  equal_items-IsSettled depth depth' (cons v x) (cons w y) (hv, hx) (hw, hy) =
      IsSettled-bind (parameter_equal v w) _ (parameter_equal-IsSettled depth depth' v w hv hw)
        (λ same _.
          if-IsSettled same (equal_items x y) (ok false)
            (equal_items-IsSettled depth depth' x y hx hy) tt)
  equal_items-IsSettled depth depth' nil y hx hy = tt
  equal_items-IsSettled depth depth' (cons v x) nil hx hy = tt

module _ ⦃t : Tokenizer⦄ where
  pub check_bound-IsSettled :
      (kind : Text) (bound : Option Text) → IsSettled (check_bound kind bound)
  unfolding check_bound
  check_bound-IsSettled kind none = tt
  check_bound-IsSettled kind (some n) =
      IsSettled-bind (relabel (decode_parameter_json n) "invalid numeric limit") _
        (relabel-IsSettled (decode_parameter_json n) _ (decode_parameter_json-IsSettled n))
        (λ v _. reject-IsSettled _ _)

check_order-IsSettled :
    (low high : Option Text)
    → BoundReadable low
    → BoundReadable high
    → IsSettled (check_order low high)
unfolding check_order
check_order-IsSettled (some a) (some b) ra rb =
    IsSettled-bind (compare_number a b) _ (compare_number-IsSettled a b ra rb)
      (λ c _. reject-IsSettled (is_gt c) _)
check_order-IsSettled none high ra rb = tt
check_order-IsSettled (some a) none ra rb = tt

module _ ⦃t : Tokenizer⦄ (limit : ParameterLimit) (r : IsReadableLimit limit) where
  check_bounds-IsSettled : IsSettled (check_bounds limit)
  unfolding check_bounds
  check_bounds-IsSettled =
      if-IsSettled (is_present limit.minimum || is_present limit.maximum) _ pass
        (IsSettled-bind (reject (not (is_numeric_type limit.kind)) _) _
          (reject-IsSettled (not (is_numeric_type limit.kind)) _)
          (λ _ _.
            IsSettled-bind (check_bound limit.kind limit.minimum) _
              (check_bound-IsSettled limit.kind limit.minimum)
              (λ _ _.
                IsSettled-bind (check_bound limit.kind limit.maximum) _
                  (check_bound-IsSettled limit.kind limit.maximum)
                  (λ _ _. check_order-IsSettled limit.minimum limit.maximum r.low r.high))))
        tt

  check_allowed-IsSettled : (raws : List Text) → IsSettled (check_allowed limit raws)
  unfolding check_allowed
  check_allowed-IsSettled [] = tt
  check_allowed-IsSettled (raw ∷ raws) =
      IsSettled-bind (relabel (decode_parameter_json raw) "invalid allowed parameter value") _
        (relabel-IsSettled (decode_parameter_json raw) _ (decode_parameter_json-IsSettled raw))
        (λ v decoded.
          IsSettled-bind (fits limit v) _
            (fits-IsSettled limit 0 v r (
              decode_parameter_json-IsDecoded raw v
                (relabel-eq-ok (decode_parameter_json raw) v _ decoded)))
            (λ good _.
              IsSettled-bind (reject (not good) _) _ (reject-IsSettled (not good) _)
                (λ _ _. check_allowed-IsSettled raws)))

  pub check_field-IsSettled : (key : Text) → IsSettled (check_field key limit)
  unfolding check_field
  check_field-IsSettled key =
      ground
        (arith, check_bounds-IsSettled, check_allowed-IsSettled (elements limit.allowed_values))
