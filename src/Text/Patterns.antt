-- ===== src/Text/Patterns.antt =====
-- The regular expressions of manifest.go and protocol.go, each anchored at both ends.
use provider_sdk.Base.{
  Bool, [], all, contains, false, leb, length, list_eq, nat_eq, ℕ, ◌&&◌, ◌==◌, ◌||◌, ◌∷◌,
}
use provider_sdk.Text.{Text, bytes, in_range}

abbrev pub is_lower : ℕ → Bool
is_lower b = in_range b'a' b'z' b

abbrev pub is_upper : ℕ → Bool
is_upper b = in_range b'A' b'Z' b

abbrev pub is_digit : ℕ → Bool
is_digit b = in_range b'0' b'9' b

abbrev pub is_hex : ℕ → Bool
is_hex b = is_digit b || in_range b'a' b'f' b

-- `^[first][rest]{0,127}$`
matches : (ℕ → Bool) → (ℕ → Bool) → Text → Bool
matches first rest [] = false
matches first rest (b ∷ s) = first b && all rest s && leb (length s) 127

unfoldable pub identity_pattern : Text → Bool
unfolding matches
identity_pattern =
    matches (λ b. is_lower b || is_digit b)
      (λ b. is_lower b || is_digit b || contains (bytes "._/@:-") b)

unfoldable pub operation_pattern : Text → Bool
unfolding matches
operation_pattern =
    matches (λ b. is_upper b || is_lower b || is_digit b)
      (λ b. is_upper b || is_lower b || is_digit b || contains (bytes "._/:@-") b)

unfoldable pub executable_pattern : Text → Bool
unfolding matches
executable_pattern =
    matches (λ b. is_lower b || is_digit b)
      (λ b. is_lower b || is_digit b || contains (bytes "._-") b)

unfoldable pub environment_pattern : Text → Bool
unfolding matches
environment_pattern =
    matches (λ b. is_upper b || b == b'_') (λ b. is_upper b || is_digit b || b == b'_')

-- `^sha256:[0-9a-f]{64}$`, from the point that the prefix has reached
after_prefix : Text → Text → Bool
after_prefix [] s = all is_hex s && length s == 64
after_prefix (p ∷ ps) [] = false
after_prefix (p ∷ ps) (b ∷ s) = b == p && after_prefix ps s

unfoldable pub digest_pattern : Text → Bool
unfolding after_prefix
digest_pattern s = after_prefix (bytes "sha256:") s

-- protocol.go has the same expression under a second name.
unfoldable pub authorization_digest_pattern : Text → Bool
unfolding digest_pattern
authorization_digest_pattern s = digest_pattern s
