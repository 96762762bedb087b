-- ===== src/Platform.antt =====
-- What the sources call and do not implement: SHA-256, JSON encoding by reflection, and the JSON
-- decoder of whole Go values. Each is an interface with the laws that its documentation states.
use mathlib.Core.Bool.{false≢true}
use provider_sdk.Base.{
  Bool, Bool-cases, Check, Option, Result, String, all, arith, eq_iff, err, inl, inr, is_empty,
  length, list_eq, nat_eq, none, ok, pass, reject, some, sym, true, ◌++◌, ◌==◌, ◌>>=◌, ◌>>◌, ◌∙◌,
  ◌≡◌, ◌≢◌, ◌⊎◌,
}
use provider_sdk.Text.Patterns.{digest_pattern, is_hex}
use provider_sdk.Json.{Value}
use provider_sdk.Text.{Text, bytes}
use provider_sdk.Selection.{selector_eq}

-- `hex.EncodeToString` of `sha256.Sum256`
pub record Sha256 : Type 0 where
  pub sum : Text → Text
  pub sum_length : (s : Text) → length (sum s) ≡ 64
  pub sum_hex : (s : Text) → all is_hex (sum s) ≡ true

-- `json.Marshal` at the type `A`
pub record Encoder (A : Type 0) : Type 0 where
  pub marshal : A → Result Text

-- encoding/json at the type `any`, without `UseNumber`
pub record PlainJson : Type 0 where
  pub unmarshal : Text → Option Value
  pub valid : Text → Bool

-- What stands behind the first value of a text.
pub data Trailing : Type 0 where
  nothing : Trailing
  another_value : Trailing
  malformed : String → Trailing

-- `json.Decoder.Decode` at the type `A`, with `DisallowUnknownFields`
pub record Decoder (A : Type 0) : Type 0 where
  pub decode_first : Text → Result (A × Trailing)

-- `"sha256:" + hex.EncodeToString(digest[:])`
unfoldable pub digest_of : ⦃h : Sha256⦄ → Text → Text
digest_of ⦃h⦄ encoded = bytes "sha256:" ++ h.sum encoded

-- `requireJSONEOF`
unfoldable pub require_json_eof : Trailing → Check
require_json_eof nothing = pass
require_json_eof another_value = err "trailing JSON value"
require_json_eof (malformed message) = err message

-- `decodeStrict`
unfoldable pub decode_strict : {A : Type 0} ⦃d : Decoder A⦄ → Text → Result A
unfolding require_json_eof
decode_strict ⦃d⦄ body = do
  (value, trailing) ← d.decode_first body
  require_json_eof trailing
  ok value

-- `JSONDigest`
unfoldable pub json_digest : ⦃h : Sha256⦄ ⦃p : PlainJson⦄ ⦃m : Encoder Value⦄ → Text → Result Text
json_digest ⦃p⦄ ⦃m⦄ value = do
  reject (is_empty value) "value is not valid JSON"
  decoded ← elim (p.unmarshal value) [ none ↦ err "value is not valid JSON" | some v ↦ ok v ]
  canonical ← m.marshal decoded
  ok (digest_of canonical)

-- A computed digest always has the form that the digest pattern asks for.
pub digest_pattern-digest_of :
    ⦃h : Sha256⦄ (encoded : Text) → digest_pattern (digest_of encoded) ≡ true
unfolding digest_pattern digest_of
digest_pattern-digest_of ⦃h⦄ encoded = ground (arith, h.sum_length encoded, h.sum_hex encoded)

-- Two byte strings that show SHA-256 not to be injective.
abbrev pub Collides : ⦃h : Sha256⦄ → Text → Text → Type 0
Collides ⦃h⦄ a b = (a ≢ b) × (h.sum a ≡ h.sum b)

-- Equal digests are digests of equal bytes, or a collision.
pub digest_of_binds : ⦃h : Sha256⦄ (a b : Text) → digest_of a ≡ digest_of b → (a ≡ b) ⊎ Collides a b
unfolding digest_of
digest_of_binds ⦃h⦄ a b e = elim (Bool-cases (a == b)) [
  | inl same ↦ inl ((eq_iff a b).0 same)
  | inr differ ↦ inr (λ p. false≢true (sym differ ∙ (eq_iff a b).1 p), cc)
]
