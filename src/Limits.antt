-- ===== src/Limits.antt =====
-- constraints.go: parameter limits, their validation and the parameters that they admit.
pub mod Admits
pub mod Panics
pub mod Settles
pub mod Unread
use Prim.Native.Nat.{Ordering}
use provider_sdk.Base.{
  Bool, Check, List, Option, Result, [], contains, elements, err, false, hang, if◌then◌else◌,
  is_empty, is_present, keys, length, list_eq, ltb, nat_eq, none, not, ok, panic, pass, reject,
  relabel, some, true, when_valid, ◌&&◌, ◌==◌, ◌>>=◌, ◌>>◌, ◌||◌, ◌∷◌,
}
use provider_sdk.Json.{Members, Tokenizer, Value, decode_parameter_json, num, obj}
use provider_sdk.Selection.{selector_eq}
use provider_sdk.Text.{Text, bytes}
use provider_sdk.Json.Bounds.{member_names}
use provider_sdk.Json.Equality.{is_gt, is_lt, member_of, parameter_equal, parameter_type}
use provider_sdk.Json.Number.{compare_number}

pub record ParameterLimit : Type 0 where
  pub kind : Text
  pub optional : Bool
  pub allowed_values : Option (List Text)
  pub minimum : Option Text
  pub maximum : Option Text

-- The map of fields as its entries, in the order in which a `range` loop meets them.
pub record ParameterLimits : Type 0 where
  pub fields : Option (List (Text × ParameterLimit))

-- `compareNumber(n, *p.Minimum) >= 0`, true without a minimum.
unfoldable pub at_least : Text → Option Text → Result Bool
at_least n none = ok true
at_least n (some bound) = do c ← compare_number n bound; ok (not (is_lt c))

unfoldable pub at_most : Text → Option Text → Result Bool
at_most n none = ok true
at_most n (some bound) = do c ← compare_number n bound; ok (not (is_gt c))

-- `inRange`
unfoldable pub in_bounds : ParameterLimit → Value → Result Bool
unfolding at_least at_most
in_bounds p (num n) = do
  enough ← at_least n p.minimum
  if enough then at_most n p.maximum else ok false
in_bounds p _ = ok (not (is_present p.minimum) && not (is_present p.maximum))

-- `parameterType(value, p.Type) && p.inRange(value)`
unfoldable pub fits : ParameterLimit → Value → Result Bool
unfolding in_bounds
fits p value = if parameter_type value p.kind then in_bounds p value else ok false

abbrev pub parameter_types : List Text
parameter_types =
    bytes "string"
    ∷ bytes "boolean"
    ∷ bytes "integer"
    ∷ bytes "number"
    ∷ bytes "object"
    ∷ bytes "array"
    ∷ []

abbrev pub is_numeric_type : Text → Bool
is_numeric_type kind = kind == bytes "integer" || kind == bytes "number"

abbrev pub is_structured_type : Text → Bool
is_structured_type kind = kind == bytes "object" || kind == bytes "array"

module _ ⦃t : Tokenizer⦄ where
  unfoldable pub check_bound : Text → Option Text → Check
  check_bound kind none = pass
  check_bound kind (some n) = do
    value ← relabel (decode_parameter_json n) "invalid numeric limit"
    reject (not (parameter_type value kind)) "invalid numeric limit"

unfoldable pub check_order : Option Text → Option Text → Check
check_order (some low) (some high) = do
  c ← compare_number low high
  reject (is_gt c) "parameter range is inverted"
check_order none _ = pass
check_order (some low) none = pass

module _ ⦃t : Tokenizer⦄ where
  unfoldable pub check_bounds : ParameterLimit → Check
  unfolding check_bound check_order
  check_bounds limit =
      if is_present limit.minimum || is_present limit.maximum
      then (do
        reject (not (is_numeric_type limit.kind)) "numeric limits require numeric type"
        check_bound limit.kind limit.minimum
        check_bound limit.kind limit.maximum
        check_order limit.minimum limit.maximum)
      else pass

  -- The loop over the allowed values of one field.
  unfoldable pub check_allowed : ParameterLimit → List Text → Check
  check_allowed limit [] = pass
  check_allowed limit (raw ∷ raws) = do
    value ← relabel (decode_parameter_json raw) "invalid allowed parameter value"
    good ← fits limit value
    reject (not good) "invalid allowed parameter value"
    check_allowed limit raws

  unfoldable pub check_field : Text → ParameterLimit → Check
  unfolding check_bounds check_allowed
  check_field key limit = do
    reject (is_empty key || ltb 256 (length key) || ltb 64 (length (elements limit.allowed_values)))
        "invalid parameter limit"
    reject (not (contains parameter_types limit.kind)) "unsupported parameter type"
    check_bounds limit
    reject (is_present limit.allowed_values && is_empty (elements limit.allowed_values))
        "empty allowed values"
    reject (is_structured_type limit.kind && is_empty (elements limit.allowed_values))
        "structured parameters require exact allowed values"
    check_allowed limit (elements limit.allowed_values)

  unfoldable pub check_fields : List (Text × ParameterLimit) → Check
  unfolding check_field
  check_fields [] = pass
  check_fields ((key, limit) ∷ fields) = do check_field key limit; check_fields fields

  -- `ParameterLimits.Validate`
  unfoldable pub validate_limits : ParameterLimits → Check
  unfolding check_fields
  validate_limits p = do
    reject (not (is_present p.fields) || ltb 64 (length (elements p.fields)))
        "parameter fields must be an explicit bounded object"
    check_fields (elements p.fields)

  -- One allowed value, decoded, and the answer for the others. A text that does not decode is
  -- passed over.
  unfoldable pub allowed_by : Value → Result Bool → Result Value → Result Bool
  allowed_by value rest (ok allowed) = do
    same ← parameter_equal value allowed
    if same then ok true else rest
  allowed_by value rest (err message) = rest
  allowed_by value rest panic = panic
  allowed_by value rest hang = hang

  -- The loop over the allowed values of a field that is present.
  unfoldable pub is_allowed : Value → List Text → Result Bool
  unfolding allowed_by
  is_allowed value [] = ok false
  is_allowed value (raw ∷ raws) =
      allowed_by value (is_allowed value raws) (decode_parameter_json raw)

  unfoldable pub check_allowed_value : ParameterLimit → Value → Result Bool
  unfolding is_allowed
  check_allowed_value limit value =
      if is_empty (elements limit.allowed_values)
      then ok true
      else is_allowed value (elements limit.allowed_values)

  -- One round of the loop over the declared fields.
  unfoldable pub admits_field : Option Value → ParameterLimit → Result Bool
  unfolding fits check_allowed_value
  admits_field none limit = ok limit.optional
  admits_field (some value) limit = do
    good ← fits limit value
    if good then check_allowed_value limit value else ok false

  unfoldable pub admits_fields : Members → List (Text × ParameterLimit) → Result Bool
  unfolding admits_field
  admits_fields values [] = ok true
  admits_fields values ((key, limit) ∷ fields) = do
    good ← admits_field (member_of key values) limit
    if good then admits_fields values fields else ok false

  -- The loop over the supplied keys.
  unfoldable pub are_declared : List Text → List (Text × ParameterLimit) → Bool
  are_declared [] fields = true
  are_declared (key ∷ names) fields = contains (keys fields) key && are_declared names fields

  unfoldable pub admits : List (Text × ParameterLimit) → Value → Result Bool
  unfolding admits_fields are_declared
  admits fields (obj values) =
      if are_declared (member_names values) fields then admits_fields values fields else ok false
  admits fields _ = ok false

  unfoldable pub admits_decoded : List (Text × ParameterLimit) → Result Value → Result Bool
  unfolding admits
  admits_decoded fields (ok value) = admits fields value
  admits_decoded fields (err message) = ok false
  admits_decoded fields panic = panic
  admits_decoded fields hang = hang

  -- `ParameterLimits.Matches`
  unfoldable pub matches_limits : ParameterLimits → Text → Result Bool
  unfolding validate_limits admits_decoded
  matches_limits p raw =
      when_valid (validate_limits p)
        (admits_decoded (elements p.fields) (decode_parameter_json raw))
