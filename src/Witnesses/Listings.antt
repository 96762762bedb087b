-- ===== src/Witnesses/Listings.antt =====
-- Examples of discovery and of verified connections.
use provider_sdk.Base.{
  [], false, if◌then◌else◌, list_beq, list_eq, nat_eq, none, ok, pass, refl, some, true, ℕ, ◌*◌,
  ◌+◌, ◌==◌, ◌↔◌, ◌∷◌, ◌≡◌,
}
use provider_sdk.Json.{
  Stream, Tokenizer, Value, bool, bool_token, close_object, decode_parameter_json, decode_stream,
  end, eof, member, next, num, number_token, obj, open_object, read_value, str, string_token,
}
use Prim.Native.Nat.{Ordering}
use provider_sdk.Base.{list_eq, nat_eq}
use provider_sdk.Base.Int.{negsuc, pos}
use provider_sdk.Capability.{
  ActionCapability, Schema, action_capability_digest, encodes, resource_discovery_protocol,
  validate_capability,
}
use provider_sdk.Discovery.{DiscoveryRequest, discovery_request_digest, validate_discovery_request}
use provider_sdk.Platform.{PlainJson, digest_of}
use provider_sdk.Selection.{selector_eq}
use provider_sdk.Text.{Text, bytes, discovery_text, has_control, trim_space, valid_string}
use provider_sdk.Witnesses.{flat_encoder, flat_sha256}
use provider_sdk.Discovery.Accepted.{IsAnswer, validate_page-IsAnswer, validate_page-IsExact}
use provider_sdk.Discovery.Exact.{IsExact}
use provider_sdk.Discovery.Page.{DiscoveryPage, validate_page}
use provider_sdk.Discovery.Respelled.{discovery_request_digest-Respelled}
use provider_sdk.Json.Canonical.{canonical_number, canonical_value}
use provider_sdk.Json.Number.{Decimal, check_number, rat_cmp, rat_of}
use provider_sdk.Json.Canonical.Exact.{canonical_number_iff}
use provider_sdk.Json.Canonical.Values.{member_and, no_members, respelled_number, respelled_object}
use provider_sdk.Text.Patterns.{digest_pattern, identity_pattern, operation_pattern}
use provider_sdk.Json.Canonical.Faithful.{canonical_value_iff}
use provider_sdk.Json.Alike.{Alike, EqualValues, SameValue}
use provider_sdk.Base.{list_eq, nat_eq}
use provider_sdk.Time.{second}

-- Two texts of one object, which spell its number in two ways.
abbrev pub three : Text
three = bytes "{\"size\":3}"

abbrev three_point : Text
three_point = bytes "{\"size\":3.00}"

abbrev pub sized : Text → Stream
sized number =
    next open_object
      (next (string_token (bytes "size")) (next (number_token number) (next close_object eof)))

abbrev pub size_tokenizer : Tokenizer
size_tokenizer = record {
  tokens = λ s. if s == three then sized (bytes "3") else sized (bytes "3.00");
}

abbrev pub lenient_json : PlainJson
lenient_json = record { unmarshal = λ s. some (obj end); valid = λ s. true }

abbrev pub any_object : Schema
any_object = encodes (obj (member (bytes "type") (str (bytes "object")) end))

abbrev pub digest : Text
digest = bytes "sha256:0000000000000000000000000000000000000000000000000000000000000000"

abbrev pub browse : ActionCapability
browse = record {
  ref = bytes "disk.resize";
  operation = bytes "resize";
  maximum_ttl_seconds = pos 300;
  reversible = false;
  parameters_schema = any_object;
  execution_schema = any_object;
  verification_schema = any_object;
  discovery = some record {
    protocol = resource_discovery_protocol;
    maximum_page_size = pos 50;
    maximum_age_seconds = pos 120;
  };
  semantics = none;
}

abbrev pub now : ℕ
now = 60000000000 * second

abbrev pub request : DiscoveryRequest
request = record {
  protocol = resource_discovery_protocol;
  request_id = bytes "q1";
  tenant_id = bytes "t";
  connection_id = bytes "c1";
  provider = bytes "cloud";
  release = bytes "r1";
  manifest_digest = digest;
  account_ref = bytes "account-1";
  capability_ref = bytes "disk.resize";
  capability_digest = digest;
  configuration = three;
  query = [];
  cursor = [];
  limit = pos 2;
  resource_ids = some (bytes "disk-1" ∷ bytes "disk-2" ∷ []);
  now = now;
}

-- One of the disks is there, and the other is missing.
abbrev pub page : DiscoveryPage
page = record {
  protocol = resource_discovery_protocol;
  request_digest = digest;
  observed_at = now + second;
  resources = some (record { id = bytes "disk-2"; label = bytes "Disk"; kind = bytes "disk" } ∷ []);
  next_cursor = [];
  missing_resource_ids = bytes "disk-1" ∷ [];
}

page_valid :
    validate_page ⦃h = flat_sha256⦄ ⦃p = lenient_json⦄ ⦃t = size_tokenizer⦄ ⦃k = flat_encoder⦄
      ⦃v = flat_encoder⦄ ⦃e = flat_encoder⦄ page request browse
      (now + 2 * second)
    ≡ pass
unfolding validate_page discovery_request_digest validate_discovery_request validate_capability
    list_beq identity_pattern operation_pattern action_capability_digest digest_of flat_sha256
    digest_pattern discovery_text valid_string trim_space has_control decode_parameter_json
    decode_stream read_value check_number rat_of
page_valid = refl

validate_page-IsExact_example : IsExact page (bytes "disk-1" ∷ bytes "disk-2" ∷ [])
validate_page-IsExact_example =
    validate_page-IsExact ⦃h = flat_sha256⦄ ⦃p = lenient_json⦄ ⦃t = size_tokenizer⦄
      ⦃k = flat_encoder⦄ ⦃v = flat_encoder⦄ ⦃e = flat_encoder⦄ page request browse
      (now + 2 * second) (bytes "disk-1" ∷ bytes "disk-2" ∷ []) refl page_valid

validate_page-IsAnswer_example :
    IsAnswer ⦃h = flat_sha256⦄ ⦃p = lenient_json⦄ ⦃t = size_tokenizer⦄ ⦃k = flat_encoder⦄
      ⦃v = flat_encoder⦄ ⦃e = flat_encoder⦄ page request browse
      (now + 2 * second)
validate_page-IsAnswer_example =
    validate_page-IsAnswer ⦃h = flat_sha256⦄ ⦃p = lenient_json⦄ ⦃t = size_tokenizer⦄
      ⦃k = flat_encoder⦄ ⦃v = flat_encoder⦄ ⦃e = flat_encoder⦄ page request browse
      (now + 2 * second) page_valid

request_valid :
    validate_discovery_request ⦃h = flat_sha256⦄ ⦃p = lenient_json⦄ ⦃t = size_tokenizer⦄
      ⦃k = flat_encoder⦄ request browse
    ≡ pass
unfolding validate_discovery_request validate_capability list_beq identity_pattern operation_pattern
    action_capability_digest digest_of flat_sha256 digest_pattern discovery_text valid_string
    trim_space has_control decode_parameter_json decode_stream read_value check_number
request_valid = refl

stored_valid :
    validate_discovery_request ⦃h = flat_sha256⦄ ⦃p = lenient_json⦄ ⦃t = size_tokenizer⦄
      ⦃k = flat_encoder⦄
      (record request { configuration = three_point })
      browse
    ≡ pass
unfolding validate_discovery_request validate_capability list_beq identity_pattern operation_pattern
    action_capability_digest digest_of flat_sha256 digest_pattern discovery_text valid_string
    trim_space has_control decode_parameter_json decode_stream read_value check_number
stored_valid = refl

three_reads :
    decode_parameter_json ⦃t = size_tokenizer⦄ three
    ≡ ok (obj (member (bytes "size") (num (bytes "3")) end))
unfolding decode_parameter_json decode_stream read_value list_beq check_number
three_reads = refl

three_point_reads :
    decode_parameter_json ⦃t = size_tokenizer⦄ three_point
    ≡ ok (obj (member (bytes "size") (num (bytes "3.00")) end))
unfolding decode_parameter_json decode_stream read_value list_beq check_number
three_point_reads = refl

abbrev three_value : Decimal
three_value = record { negative = false; mantissa = 3; exponent = pos 0 }

abbrev three_point_value : Decimal
three_point_value = record { negative = false; mantissa = 300; exponent = negsuc 1 }

reads_three : rat_of (bytes "3") ≡ some three_value
unfolding rat_of
reads_three = refl

reads_three_point : rat_of (bytes "3.00") ≡ some three_point_value
unfolding rat_of
reads_three_point = refl

equal_threes : rat_cmp three_value three_point_value ≡ Ordering.eq
unfolding rat_cmp
equal_threes = refl

canonical_number_iff_example :
    (canonical_number (bytes "3") ≡ canonical_number (bytes "3.00"))
    ↔ (rat_cmp three_value three_point_value ≡ Ordering.eq)
canonical_number_iff_example =
    canonical_number_iff (bytes "3") (bytes "3.00") three_value three_point_value reads_three
      reads_three_point

-- One object with its members in two orders and its number in two spellings.
abbrev size_first : Text
size_first = bytes "{\"size\":3,\"fast\":true}"

abbrev size_last : Text
size_last = bytes "{\"fast\":true,\"size\":3.00}"

abbrev pair_tokenizer : Tokenizer
pair_tokenizer = record {
  tokens = λ s.
      if s == size_first
      then next open_object (
          next (string_token (bytes "size")) (
            next (number_token (bytes "3")) (
              next (string_token (bytes "fast")) (next (bool_token true) (next close_object eof)))))
      else next open_object (
          next (string_token (bytes "fast")) (
            next (bool_token true) (
              next (string_token (bytes "size"))
                (next (number_token (bytes "3.00")) (next close_object eof)))));
}

abbrev size_first_value : Value
size_first_value =
    obj (member (bytes "size") (num (bytes "3")) (member (bytes "fast") (bool true) end))

abbrev size_last_value : Value
size_last_value =
    obj (member (bytes "fast") (bool true) (member (bytes "size") (num (bytes "3.00")) end))

size_first_reads : decode_parameter_json ⦃t = pair_tokenizer⦄ size_first ≡ ok size_first_value
unfolding decode_parameter_json decode_stream read_value list_beq check_number
size_first_reads = refl

size_last_reads : decode_parameter_json ⦃t = pair_tokenizer⦄ size_last ≡ ok size_last_value
unfolding decode_parameter_json decode_stream read_value list_beq check_number
size_last_reads = refl

canonical_value_iff_example :
    SameValue (canonical_value size_first_value) (canonical_value size_last_value)
    ↔ EqualValues size_first_value size_last_value
canonical_value_iff_example =
    canonical_value_iff ⦃t = pair_tokenizer⦄ size_first size_last size_first_value size_last_value
      size_first_reads size_last_reads

discovery_request_digest-Respelled_example :
    discovery_request_digest ⦃h = flat_sha256⦄ ⦃p = lenient_json⦄ ⦃t = size_tokenizer⦄
      ⦃k = flat_encoder⦄ ⦃v = flat_encoder⦄ ⦃e = flat_encoder⦄
      (record request { configuration = three_point })
      browse
    ≡ discovery_request_digest ⦃h = flat_sha256⦄ ⦃p = lenient_json⦄ ⦃t = size_tokenizer⦄
        ⦃k = flat_encoder⦄ ⦃v = flat_encoder⦄ ⦃e = flat_encoder⦄ request browse
discovery_request_digest-Respelled_example =
    discovery_request_digest-Respelled ⦃h = flat_sha256⦄ ⦃p = lenient_json⦄ ⦃t = size_tokenizer⦄
      ⦃k = flat_encoder⦄ ⦃v = flat_encoder⦄ ⦃e = flat_encoder⦄ request three_point browse
      (obj (member (bytes "size") (num (bytes "3")) end))
      (obj (member (bytes "size") (num (bytes "3.00")) end)) request_valid stored_valid three_reads
      three_point_reads
      (respelled_object (
        member_and (bytes "size")
          (respelled_number (bytes "3") (bytes "3.00") three_value three_point_value reads_three
            reads_three_point equal_threes)
          no_members))
