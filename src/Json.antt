-- ===== src/Json.antt =====
-- JSON values and token streams, and `decodeParameterJSON` and `readParameterValue` of
-- constraints.go over them.
pub mod Number
pub mod Bounds
pub mod Fuel
pub mod Equality
pub mod Canonical
pub mod Alike
use provider_sdk.Base.{
  Bool, List, Result, String, [], contains, err, false, hang, if◌then◌else◌, length, list_eq, ltb,
  nat_eq, ok, reject, suc, true, zero, ℕ, ◌*◌, ◌+◌, ◌==◌, ◌>>=◌, ◌>>◌, ◌||◌, ◌∷◌,
}
use provider_sdk.Text.{Text}
use provider_sdk.Json.Number.{check_number}

-- What `any` holds after decoding with `UseNumber`. A `map[string]any` is the list of its members in
-- the order in which they were read. The map itself has no order: two values are one Go value when they
-- are `SameValue` in `Json.Alike`, and `≡` also tells orders apart, as a run of the reader does. A
-- `range` loop over the map meets the members in the order of the list.
mutual
  pub data Value : Type 0 where
    null : Value
    bool : Bool → Value
    num : Text → Value
    str : Text → Value
    arr : Items → Value
    obj : Members → Value

  pub data Items : Type 0 where
    nil : Items
    cons : Value → Items → Items

  pub data Members : Type 0 where
    end : Members
    member : Text → Value → Members → Members

-- `json.Token`
pub data Token : Type 0 where
  open_object close_object open_array close_array : Token
  null_token : Token
  bool_token : Bool → Token
  number_token : Text → Token
  string_token : Text → Token

-- What `json.Decoder.Token` will return: tokens, then `io.EOF` or an error for malformed text.
pub data Stream : Type 0 where
  eof : Stream
  bad : String → Stream
  next : Token → Stream → Stream

abbrev pub stream_length : Stream → ℕ
stream_length eof = 0
stream_length (bad message) = 0
stream_length (next t d) = suc (stream_length d)

-- `d.More()`: malformed text is more, and the next call of `Token` returns the error.
unfoldable pub more : Stream → Bool
more eof = false
more (bad message) = true
more (next close_object d) = false
more (next close_array d) = false
more (next _ d) = true

-- The key of a member, which must not be among the names already read.
unfoldable pub read_key : List Text → Stream → Result (Text × Stream)
read_key seen eof = err "EOF"
read_key seen (bad message) = err message
read_key seen (next (string_token name) d) =
    if contains seen name then err "duplicate parameter key" else ok (name, d)
read_key seen (next _ d) = err "invalid parameter key"

unfoldable pub close_members : Members × Stream → Result (Value × Stream)
close_members (ms, next close_object d) = ok (obj ms, d)
close_members (ms, _) = err "unclosed parameter object"

unfoldable pub close_items : Items × Stream → Result (Value × Stream)
close_items (xs, next close_array d) = ok (arr xs, d)
close_items (xs, _) = err "unclosed parameter array"

-- The `switch` on the token, given the loops over members and over items.
unfoldable pub read_token :
    (Stream → Result (Members × Stream))
    → (Stream → Result (Items × Stream))
    → Stream
    → Result (Value × Stream)
unfolding close_members close_items
read_token members items eof = err "EOF"
read_token members items (bad message) = err message
read_token members items (next (number_token v) d) = do check_number v; ok (num v, d)
read_token members items (next (string_token v) d) = ok (str v, d)
read_token members items (next (bool_token v) d) = ok (bool v, d)
read_token members items (next null_token d) = ok (null, d)
read_token members items (next open_object d) = members d >>= close_members
read_token members items (next open_array d) = items d >>= close_items
read_token members items (next close_object d) = err "unexpected parameter delimiter"
read_token members items (next close_array d) = err "unexpected parameter delimiter"

-- `readParameterValue` and its two loops, on fuel.
unfoldable mutual
  unfolding more read_key read_token

  pub read_value : ℕ → ℕ → Stream → Result (Value × Stream)
  read_value zero depth d = hang
  read_value (suc f) depth d =
      let body = read_token (read_members f depth []) (read_items f depth) d in
      if ltb 16 depth then err "parameter JSON nesting exceeds bounds" else body

  pub read_members : ℕ → ℕ → List Text → Stream → Result (Members × Stream)
  read_members zero depth seen d = hang
  read_members (suc f) depth seen d =
      let step = do
        (name, d₁) ← read_key seen d
        (v, d₂) ← read_value f (depth + 1) d₁
        (ms, d₃) ← read_members f depth (name ∷ seen) d₂
        ok (member name v ms, d₃)
      in if more d then step else ok (end, d)

  pub read_items : ℕ → ℕ → Stream → Result (Items × Stream)
  read_items zero depth d = hang
  read_items (suc f) depth d =
      let step = do
        (v, d₁) ← read_value f (depth + 1) d
        (vs, d₂) ← read_items f depth d₁
        ok (cons v vs, d₂)
      in if more d then step else ok (nil, d)

-- `_, err := d.Token(); err != io.EOF`
unfoldable pub require_end : Value × Stream → Result Value
require_end (v, eof) = ok v
require_end (v, _) = err "trailing parameter JSON"

-- `decodeParameterJSON` behind the tokenizer. `Json.Fuel` shows that this fuel is enough.
unfoldable pub decode_stream : Stream → Result Value
unfolding require_end
decode_stream d = read_value (2 * stream_length d + 1) 0 d >>= require_end

-- The part of encoding/json that the sources call: the tokens of a text.
pub record Tokenizer : Type 0 where
  pub tokens : Text → Stream

-- `decodeParameterJSON`
unfoldable pub decode_parameter_json : ⦃t : Tokenizer⦄ → Text → Result Value
decode_parameter_json ⦃t⦄ raw = do
  reject (length raw == 0 || ltb 65536 (length raw)) "parameter JSON exceeds bounds"
  decode_stream (t.tokens raw)
