-- ===== src/Witnesses/Parameters.antt =====
-- Examples of parameters and of their limits.
use provider_sdk.Json.{
  Members, decode_parameter_json, decode_stream, end, member, num, obj, read_value,
}
use provider_sdk.Base.{
  [], elements, false, inl, list_beq, none, ok, panic, pass, refl, some, true, ◌↔◌, ◌∷◌, ◌≡◌,
}
use provider_sdk.Limits.{
  ParameterLimit, ParameterLimits, check_bound, check_bounds, is_numeric_type, matches_limits,
  validate_limits,
}
use provider_sdk.Text.{bytes, trim_space}
use provider_sdk.Witnesses.{small_object, small_tokenizer}
use provider_sdk.Json.Bounds.{IsDecoded, decode_parameter_json-IsDecoded}
use provider_sdk.Json.Equality.{parameter_equal, parameter_type}
use provider_sdk.Json.Fuel.{IsSettled, decode_parameter_json-IsSettled}
use provider_sdk.Json.Number.{check_number, compare_number, is_int, rat_of}
use provider_sdk.Limits.Admits.{IsWithin, matches_limits-IsWithin}
use provider_sdk.Limits.Settles.{AllReadable, matches_limits-IsSettled}
use provider_sdk.Limits.Unread.{IsUnread, check_bounds-panics_iff}
use provider_sdk.Limits.Panics.{IsReadable}

abbrev three : Members
three = member (bytes "size") (num (bytes "3")) end

decoded : decode_parameter_json ⦃t = small_tokenizer⦄ small_object ≡ ok (obj three)
unfolding decode_parameter_json decode_stream read_value list_beq check_number
decoded = refl

decode_parameter_json-IsDecoded_example : IsDecoded 0 (obj three)
decode_parameter_json-IsDecoded_example =
    decode_parameter_json-IsDecoded ⦃t = small_tokenizer⦄ small_object (obj three) decoded

decode_parameter_json-IsSettled_example :
    IsSettled (decode_parameter_json ⦃t = small_tokenizer⦄ small_object)
decode_parameter_json-IsSettled_example =
    decode_parameter_json-IsSettled ⦃t = small_tokenizer⦄ small_object

abbrev size_limit : ParameterLimit
size_limit = record {
  kind = bytes "integer";
  optional = false;
  allowed_values = some (bytes "3" ∷ bytes "5" ∷ []);
  minimum = some (bytes "1");
  maximum = some (bytes "10");
}

abbrev limits : ParameterLimits
limits = record { fields = some ((bytes "size", size_limit) ∷ []) }

within : matches_limits ⦃t = small_tokenizer⦄ limits small_object ≡ ok true
unfolding matches_limits list_beq decode_parameter_json decode_stream read_value check_number
    trim_space parameter_type is_int compare_number parameter_equal
within = refl

matches_limits-IsWithin_example : IsWithin ⦃t = small_tokenizer⦄ limits small_object
matches_limits-IsWithin_example =
    matches_limits-IsWithin ⦃t = small_tokenizer⦄ limits small_object within

one_read : IsReadable (bytes "1")
unfolding rat_of
one_read = (_, refl)

ten_read : IsReadable (bytes "10")
unfolding rat_of
ten_read = (_, refl)

readable : AllReadable (elements limits.fields)
readable = (record { low = one_read; high = ten_read }, tt)

matches_limits-IsSettled_example :
    IsSettled (validate_limits ⦃t = small_tokenizer⦄ limits)
    × IsSettled (matches_limits ⦃t = small_tokenizer⦄ limits small_object)
matches_limits-IsSettled_example =
    matches_limits-IsSettled ⦃t = small_tokenizer⦄ limits small_object readable

-- A minimum with a blank before its number.
abbrev padded_limit : ParameterLimit
padded_limit = record {
  kind = bytes "integer";
  optional = false;
  allowed_values = none;
  minimum = some (bytes " 1");
  maximum = some (bytes "10");
}

padded_low : check_bound ⦃t = small_tokenizer⦄ (bytes "integer") (some (bytes " 1")) ≡ pass
unfolding check_bound decode_parameter_json decode_stream read_value list_beq check_number
    trim_space parameter_type is_int
padded_low = refl

padded_high : check_bound ⦃t = small_tokenizer⦄ (bytes "integer") (some (bytes "10")) ≡ pass
unfolding check_bound decode_parameter_json decode_stream read_value list_beq check_number
    trim_space parameter_type is_int
padded_high = refl

padded_unread : rat_of (bytes " 1") ≡ none
unfolding rat_of
padded_unread = refl

padded_numeric : is_numeric_type (bytes "integer") ≡ true
unfolding list_beq
padded_numeric = refl

padded-IsUnread : IsUnread ⦃t = small_tokenizer⦄ padded_limit
padded-IsUnread = record {
  low = bytes " 1";
  high = bytes "10";
  minimum = refl;
  maximum = refl;
  numeric = padded_numeric;
  low_fits = padded_low;
  high_fits = padded_high;
  unread = inl padded_unread;
}

padded_panics : check_bounds ⦃t = small_tokenizer⦄ padded_limit ≡ panic
padded_panics = (check_bounds-panics_iff ⦃t = small_tokenizer⦄ padded_limit).1 padded-IsUnread

check_bounds-panics_iff_example :
    (check_bounds ⦃t = small_tokenizer⦄ padded_limit ≡ panic)
    ↔ IsUnread ⦃t = small_tokenizer⦄ padded_limit
check_bounds-panics_iff_example = check_bounds-panics_iff ⦃t = small_tokenizer⦄ padded_limit
