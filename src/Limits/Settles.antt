-- ===== src/Limits/Settles.antt =====
-- The evaluation of limits settles, if their bounds are plain numbers.

use provider_sdk.Base.{
  All, Bool, List, Option, Result, [], arith, elements, err, false, hang, is_empty, none, ok, panic,
  refl, reject, some, true, ℕ, ◌∷◌, ◌≡◌,
}
use provider_sdk.Json.{Members, Tokenizer, Value, decode_parameter_json, null, obj}
use provider_sdk.Limits.{
  ParameterLimit, ParameterLimits, admits, admits_decoded, admits_field, admits_fields, allowed_by,
  are_declared, check_allowed_value, check_field, check_fields, fits, is_allowed, matches_limits,
  validate_limits,
}
use provider_sdk.Text.{Text}
use provider_sdk.Json.Bounds.{
  IsDecoded, MembersDecoded, decode_parameter_json-IsDecoded, member_names,
}
use provider_sdk.Json.Equality.{member_of, parameter_equal}
use provider_sdk.Json.Fuel.{IsSettled, decode_parameter_json-IsSettled}
use provider_sdk.Limits.Panics.{
  IsReadableLimit, IsSettled-bind, check_field-IsSettled, fits-IsSettled, if-IsSettled,
  member_of-IsDecoded, parameter_equal-IsSettled, reject-IsSettled,
}

abbrev pub AllReadable : List (Text × ParameterLimit) → Type 0
AllReadable fields = All (λ f. IsReadableLimit f.1) fields

module _ ⦃t : Tokenizer⦄ where
  check_fields-IsSettled :
      (fields : List (Text × ParameterLimit)) → AllReadable fields → IsSettled (check_fields fields)
  unfolding check_fields
  check_fields-IsSettled [] h = tt
  check_fields-IsSettled ((key, limit) ∷ fields) (r, h) =
      IsSettled-bind (check_field key limit) _ (check_field-IsSettled limit r key)
        (λ _ _. check_fields-IsSettled fields h)

  allowed_by-IsSettled :
      (depth : ℕ) (v : Value) (rest : Result Bool) (raw : Text)
      → IsDecoded depth v
      → IsSettled rest
      → IsSettled (allowed_by v rest (decode_parameter_json raw))
  allowed_by-IsSettled depth v rest raw hv hr = go (decode_parameter_json raw) refl
    where
      go : (d : Result Value) → decode_parameter_json raw ≡ d → IsSettled (allowed_by v rest d)
      go (ok w) e =
          unfold allowed_by in
          IsSettled-bind (parameter_equal v w) _
            (parameter_equal-IsSettled depth 0 v w hv (decode_parameter_json-IsDecoded raw w e))
            (λ same _. if-IsSettled same (ok true) rest tt hr)
      go (err message) e = unfold allowed_by in hr
      go panic e = absurd (rw e at (decode_parameter_json-IsSettled raw))
      go hang e = absurd (rw e at (decode_parameter_json-IsSettled raw))

  is_allowed-IsSettled :
      (depth : ℕ) (v : Value) (raws : List Text) → IsDecoded depth v → IsSettled (is_allowed v raws)
  unfolding is_allowed
  is_allowed-IsSettled depth v [] h = tt
  is_allowed-IsSettled depth v (raw ∷ raws) h =
      allowed_by-IsSettled depth v (is_allowed v raws) raw h (is_allowed-IsSettled depth v raws h)

  admits_field-IsSettled :
      (depth : ℕ) (v : Option Value) (limit : ParameterLimit)
      → IsReadableLimit limit
      → ((w : Value) → v ≡ some w → IsDecoded depth w)
      → IsSettled (admits_field v limit)
  unfolding admits_field
  admits_field-IsSettled depth none limit r h = tt
  admits_field-IsSettled depth (some v) limit r h =
      IsSettled-bind (fits limit v) _ (fits-IsSettled limit depth v r (h v refl)) (λ good _.
        if-IsSettled good (check_allowed_value limit v) (ok false)
          (if-IsSettled (is_empty (elements limit.allowed_values)) (ok true)
            (is_allowed v (elements limit.allowed_values)) tt
            (is_allowed-IsSettled depth v (elements limit.allowed_values) (h v refl)))
          tt)

  admits_fields-IsSettled :
      (depth : ℕ) (values : Members) (fields : List (Text × ParameterLimit))
      → AllReadable fields
      → MembersDecoded depth values
      → IsSettled (admits_fields values fields)
  unfolding admits_fields
  admits_fields-IsSettled depth values [] r h = tt
  admits_fields-IsSettled depth values ((key, limit) ∷ fields) (here, r) h =
      IsSettled-bind (admits_field (member_of key values) limit) _
        (admits_field-IsSettled depth (member_of key values) limit here
          (λ w found. member_of-IsDecoded depth key values w h found))
        (λ good _.
          if-IsSettled good (admits_fields values fields) (ok false)
            (admits_fields-IsSettled depth values fields r h) tt)

  admits-IsSettled :
      (fields : List (Text × ParameterLimit)) (v : Value)
      → AllReadable fields
      → IsDecoded 0 v
      → IsSettled (admits fields v)
  unfolding admits
  admits-IsSettled fields (obj values) r (_, _, h) =
      if-IsSettled (are_declared (member_names values) fields) (admits_fields values fields)
        (ok false) (admits_fields-IsSettled 1 values fields r h) tt
  admits-IsSettled fields null r h = tt
  admits-IsSettled fields _ r h = tt

  admits_decoded-IsSettled :
      (fields : List (Text × ParameterLimit)) (raw : Text)
      → AllReadable fields
      → IsSettled (admits_decoded fields (decode_parameter_json raw))
  admits_decoded-IsSettled fields raw r = go (decode_parameter_json raw) refl
    where
      go : (d : Result Value) → decode_parameter_json raw ≡ d → IsSettled (admits_decoded fields d)
      go (ok v) e =
          unfold admits_decoded in
          admits-IsSettled fields v r (decode_parameter_json-IsDecoded raw v e)
      go (err message) e = unfold admits_decoded in tt
      go panic e = absurd (rw e at (decode_parameter_json-IsSettled raw))
      go hang e = absurd (rw e at (decode_parameter_json-IsSettled raw))

  validate_limits-IsSettled :
      (p : ParameterLimits) → AllReadable (elements p.fields) → IsSettled (validate_limits p)
  unfolding validate_limits
  validate_limits-IsSettled p r =
      IsSettled-bind (reject _ _) _ (reject-IsSettled _ _)
        (λ _ _. check_fields-IsSettled (elements p.fields) r)

  -- If the bounds of every field are texts that `big.Rat` reads, then neither the validation of the
  -- limits nor the match of any parameters panics or runs on.
  pub matches_limits-IsSettled :
      (p : ParameterLimits) (raw : Text)
      → AllReadable (elements p.fields)
      → IsSettled (validate_limits p) × IsSettled (matches_limits p raw)
  unfolding matches_limits
  matches_limits-IsSettled p raw r =
      let valid = validate_limits-IsSettled p r in
      let admitted = admits_decoded-IsSettled (elements p.fields) raw r in
      (valid, ground (arith, valid, admitted))
