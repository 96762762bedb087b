-- ===== src/Limits/Admits.antt =====
-- What the parameters that a limit admits look like.
use Prim.Native.Nat.{Ordering, compare}
use mathlib.Core.Bool.{and-eq-true_iff}
use provider_sdk.Base.{
  >>=-eq-ok, All, Any, Bool, In, List, Option, Result, [], and_then-eq-true, ap, arith, contains,
  contains_iff, elements, err, false, hang, if_false-eq-true, if◌then◌else◌, inl, inr, keys,
  list_eq, nat_eq, none, not, ok, ok_of, panic, pass, refl, some, true, when_valid-eq-true, ℕ, ◌+◌,
  ◌>>=◌, ◌∙◌, ◌∷◌, ◌≡◌, ◌≤◌, ◌⊎◌,
}
use provider_sdk.Json.{Members, Tokenizer, Value, decode_parameter_json, null, num, obj}
use provider_sdk.Limits.{
  ParameterLimit, ParameterLimits, admits_decoded, admits_field, admits_fields, allowed_by,
  are_declared, at_least, at_most, check_allowed_value, fits, in_bounds, is_allowed, matches_limits,
  validate_limits,
}
use provider_sdk.Text.{Text}
use provider_sdk.Json.Equality.{is_gt, is_lt, member_of, parameter_equal, parameter_type}
use provider_sdk.Json.Number.{Decimal, above, below, compare_number, compare_rats, rat_cmp, rat_of}
use provider_sdk.Selection.{selector_eq}
use provider_sdk.Json.Bounds.{member_names}

-- The order of the rational numbers that two decimals stand for, cross-multiplied.
abbrev pub RatLe : Decimal → Decimal → Type 0
RatLe x y = above x y + below y x ≤ above y x + below x y

-- The numbers that two texts stand for are in order.
abbrev pub NumberLe : Text → Text → Type 0
NumberLe a b = (x : Decimal) × (y : Decimal) × (rat_of a ≡ some x) × (rat_of b ≡ some y) × RatLe x y

abbrev pub AtLeast : Text → Option Text → Type 0
AtLeast n none = Unit
AtLeast n (some bound) = NumberLe bound n

abbrev pub AtMost : Text → Option Text → Type 0
AtMost n none = Unit
AtMost n (some bound) = NumberLe n bound

-- A number lies between the bounds; another value has none to lie between.
abbrev pub InBounds : ParameterLimit → Value → Type 0
InBounds p (num n) = AtLeast n p.minimum × AtMost n p.maximum
InBounds p _ = (p.minimum ≡ none) × (p.maximum ≡ none)

le_of_compare : (m n : ℕ) → is_gt (compare m n) ≡ false → m ≤ n
le_of_compare m n h = ground arith

ge_of_compare : (m n : ℕ) → is_lt (compare m n) ≡ false → n ≤ m
ge_of_compare m n h = ground arith

rat_cmp-RatLe : (x y : Decimal) → is_gt (rat_cmp x y) ≡ false → RatLe x y
unfolding rat_cmp
rat_cmp-RatLe x y h = le_of_compare (above x y + below y x) (above y x + below x y) h

rat_cmp-RatGe : (x y : Decimal) → is_lt (rat_cmp x y) ≡ false → RatLe y x
unfolding rat_cmp
rat_cmp-RatGe x y h = ge_of_compare (above x y + below y x) (above y x + below x y) h

compare_rats-NumberLe :
    (a b : Text) (x y : Option Decimal) (c : Ordering)
    → rat_of a ≡ x
    → rat_of b ≡ y
    → compare_rats x y ≡ ok c
    → is_gt c ≡ false
    → NumberLe a b
unfolding compare_rats
compare_rats-NumberLe a b (some x) (some y) c ea eb h k =
    (x, y, ea, eb, rat_cmp-RatLe x y (ap is_gt (ok_of h) ∙ k))
compare_rats-NumberLe a b (some x) none c ea eb h k = cc
compare_rats-NumberLe a b none y c ea eb h k = cc

compare_rats-NumberGe :
    (a b : Text) (x y : Option Decimal) (c : Ordering)
    → rat_of a ≡ x
    → rat_of b ≡ y
    → compare_rats x y ≡ ok c
    → is_lt c ≡ false
    → NumberLe b a
unfolding compare_rats
compare_rats-NumberGe a b (some x) (some y) c ea eb h k =
    (y, x, eb, ea, rat_cmp-RatGe x y (ap is_lt (ok_of h) ∙ k))
compare_rats-NumberGe a b (some x) none c ea eb h k = cc
compare_rats-NumberGe a b none y c ea eb h k = cc

not-eq-true : (b : Bool) → not b ≡ true → b ≡ false
not-eq-true b h = ground arith

at_least-AtLeast : (n : Text) (bound : Option Text) → at_least n bound ≡ ok true → AtLeast n bound
unfolding at_least
at_least-AtLeast n none h = tt
at_least-AtLeast n (some bound) h =
    let (c, compared, e) = >>=-eq-ok (compare_number n bound) (λ c. ok (not (is_lt c))) h in
    compare_rats-NumberGe n bound (rat_of n) (rat_of bound) c refl refl
      (unfold compare_number in compared) (ground arith)

at_most-AtMost : (n : Text) (bound : Option Text) → at_most n bound ≡ ok true → AtMost n bound
unfolding at_most
at_most-AtMost n none h = tt
at_most-AtMost n (some bound) h =
    let (c, compared, e) = >>=-eq-ok (compare_number n bound) (λ c. ok (not (is_gt c))) h in
    compare_rats-NumberLe n bound (rat_of n) (rat_of bound) c refl refl
      (unfold compare_number in compared) (ground arith)

in_bounds-InBounds : (p : ParameterLimit) (v : Value) → in_bounds p v ≡ ok true → InBounds p v
unfolding in_bounds
in_bounds-InBounds p (num n) h =
    let (low, high) = and_then-eq-true (at_least n p.minimum) (at_most n p.maximum) h in
    (at_least-AtLeast n p.minimum low, at_most-AtMost n p.maximum high)
in_bounds-InBounds p null h = ground arith
in_bounds-InBounds p _ h = ground arith

-- A value that a limit admits: of its type, within its bounds, and among its allowed values, if it
-- has any.
module _ ⦃t : Tokenizer⦄ where
  abbrev pub EqualsOneOf : Value → List Text → Type 0
  EqualsOneOf v raws =
      Any
        (λ raw. (w : Value) × (decode_parameter_json raw ≡ ok w) × (parameter_equal v w ≡ ok true))
        raws

  pub record IsAdmitted (limit : ParameterLimit) (v : Value) : Type 0 where
    pub typed : parameter_type v limit.kind ≡ true
    pub bounded : InBounds limit v
    pub allowed :
        (elements limit.allowed_values ≡ []) ⊎ EqualsOneOf v (elements limit.allowed_values)

  same-eq-true :
      (same rest : Result Bool)
      → (same >>= λ b. if b then ok true else rest) ≡ ok true
      → (same ≡ ok true) ⊎ (rest ≡ ok true)
  same-eq-true (ok true) rest h = inl refl
  same-eq-true (ok false) rest h = inr h
  same-eq-true (err message) rest h = cc
  same-eq-true panic rest h = cc
  same-eq-true hang rest h = cc

  allowed_by-eq-true :
      (v : Value) (rest : Result Bool) (d : Result Value)
      → allowed_by v rest d ≡ ok true
      → ((w : Value) × (d ≡ ok w) × (parameter_equal v w ≡ ok true)) ⊎ (rest ≡ ok true)
  unfolding allowed_by
  allowed_by-eq-true v rest (ok w) h = elim (same-eq-true (parameter_equal v w) rest h) [
    | inl e ↦ inl (w, refl, e)
    | inr e ↦ inr e
  ]
  allowed_by-eq-true v rest (err message) h = inr h
  allowed_by-eq-true v rest panic h = cc
  allowed_by-eq-true v rest hang h = cc

  is_allowed-EqualsOneOf :
      (v : Value) (raws : List Text) → is_allowed v raws ≡ ok true → EqualsOneOf v raws
  is_allowed-EqualsOneOf v [] h = unfold is_allowed in ground arith
  is_allowed-EqualsOneOf v (raw ∷ raws) h =
      elim (allowed_by-eq-true v (is_allowed v raws) (decode_parameter_json raw)
        (unfold is_allowed in h)) [
          | inl found ↦ inl found
          | inr later ↦ inr (is_allowed-EqualsOneOf v raws later)
        ]

  check_allowed_value_sound :
      (limit : ParameterLimit) (v : Value)
      → check_allowed_value limit v ≡ ok true
      → (elements limit.allowed_values ≡ []) ⊎ EqualsOneOf v (elements limit.allowed_values)
  check_allowed_value_sound limit v h = go (elements limit.allowed_values) refl
    where
      go :
          (raws : List Text)
          → elements limit.allowed_values ≡ raws
          → (elements limit.allowed_values ≡ []) ⊎ EqualsOneOf v (elements limit.allowed_values)
      go [] e = inl e
      go (raw ∷ raws) e = inr (
          rw e (
            is_allowed-EqualsOneOf v (raw ∷ raws)
              (unfold check_allowed_value in rw (e, check_allowed_value) at h)))

  -- A declared field is met by a value that its limit admits, or by none if it is optional.
  abbrev pub Meets : Option Value → ParameterLimit → Type 0
  Meets none limit = limit.optional ≡ true
  Meets (some v) limit = IsAdmitted limit v

  admits_field-Meets :
      (v : Option Value) (limit : ParameterLimit) → admits_field v limit ≡ ok true → Meets v limit
  admits_field-Meets none limit h = unfold admits_field in ok_of h
  admits_field-Meets (some v) limit h =
      let (fit, allowed) =
        and_then-eq-true (fits limit v) (check_allowed_value limit v) (unfold admits_field in h) in
      let (typed, bounded) =
        if_false-eq-true (parameter_type v limit.kind) (in_bounds limit v) (unfold fits in fit) in
      record {
        typed = typed;
        bounded = in_bounds-InBounds limit v bounded;
        allowed = check_allowed_value_sound limit v allowed;
      }

  -- Every declared field is met by the member of its name.
  abbrev pub MeetsAll : Members → List (Text × ParameterLimit) → Type 0
  MeetsAll values fields = All (λ f. Meets (member_of f.0 values) f.1) fields

  admits_fields-MeetsAll :
      (values : Members) (fields : List (Text × ParameterLimit))
      → admits_fields values fields ≡ ok true
      → MeetsAll values fields
  admits_fields-MeetsAll values [] h = tt
  admits_fields-MeetsAll values ((key, limit) ∷ fields) h =
      let (here, later) =
        and_then-eq-true (admits_field (member_of key values) limit) (admits_fields values fields)
          (unfold admits_fields in h) in
      (
        admits_field-Meets (member_of key values) limit here,
        admits_fields-MeetsAll values fields later,
      )

  are_declared_sound :
      (names : List Text) (fields : List (Text × ParameterLimit))
      → are_declared names fields ≡ true
      → All (λ name. In name (keys fields)) names
  are_declared_sound [] fields h = tt
  are_declared_sound (name ∷ names) fields h =
      let (here, later) =
        (and-eq-true_iff (contains (keys fields) name) (are_declared names fields)).0
          (unfold are_declared in h) in
      ((contains_iff (keys fields) name).0 here, are_declared_sound names fields later)

  -- What `Matches` promises of the parameters: an object whose every member is declared and whose
  -- members meet every declared field.
  pub record IsWithin (p : ParameterLimits) (raw : Text) : Type 0 where
    pub valid : validate_limits p ≡ pass
    pub values : Members
    pub decodes : decode_parameter_json raw ≡ ok (obj values)
    pub closed : All (λ name. In name (keys (elements p.fields))) (member_names values)
    pub met : MeetsAll values (elements p.fields)

  admits_decoded-object :
      (fields : List (Text × ParameterLimit)) (d : Result Value)
      → admits_decoded fields d ≡ ok true
      → (values : Members) × (d ≡ ok (obj values))
        × (are_declared (member_names values) fields ≡ true)
        × (admits_fields values fields ≡ ok true)
  unfolding admits_decoded
  admits_decoded-object fields (ok (obj values)) h =
      let (declared, met) =
        if_false-eq-true (are_declared (member_names values) fields) (admits_fields values fields)
          h in
      (values, refl, declared, met)
  admits_decoded-object fields (ok null) h = ground arith
  admits_decoded-object fields (ok _) h = ground arith
  admits_decoded-object fields (err message) h = ground arith
  admits_decoded-object fields panic h = cc
  admits_decoded-object fields hang h = cc

  -- Parameters that match a limit are one JSON object whose members are all declared. Each declared
  -- field has a member, unless it is optional, and the member has the declared type, lies within the
  -- inclusive bounds as a rational number, and equals an allowed value where there are any.
  pub matches_limits-IsWithin :
      (p : ParameterLimits) (raw : Text) → matches_limits p raw ≡ ok true → IsWithin p raw
  matches_limits-IsWithin p raw h =
      let (valid, admitted) =
        when_valid-eq-true (validate_limits p)
          (admits_decoded (elements p.fields) (decode_parameter_json raw))
          (unfold matches_limits in h) in
      let (values, decodes, declared, met) =
        admits_decoded-object (elements p.fields) (decode_parameter_json raw) admitted in
      record {
        valid = valid;
        values = values;
        decodes = decodes;
        closed = are_declared_sound (member_names values) (elements p.fields) declared;
        met = admits_fields-MeetsAll values (elements p.fields) met;
      }
