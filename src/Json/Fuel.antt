-- ===== src/Json/Fuel.antt =====
-- Termination of `readParameterValue`: the fuel of `decode_stream` is never used up, and no number
-- check can panic.
use provider_sdk.Base.{
  Bool-cases, Check, List, Result, [], arith, contains, err, hang, inl, inr, length, list_eq, ltb,
  nat_eq, ok, panic, refl, suc, zero, ℕ, ◌*◌, ◌+◌, ◌<◌, ◌==◌, ◌>>=◌, ◌>>◌, ◌||◌, ◌∷◌, ◌≢◌, ◌≤◌,
}
use provider_sdk.Text.{Text}
use provider_sdk.Json.Number.{check_exponent, check_number}
use provider_sdk.Json.{
  Items, Members, Stream, Tokenizer, Value, bad, bool_token, close_array, close_items,
  close_members, close_object, decode_parameter_json, decode_stream, eof, more, next, null_token,
  num, number_token, open_array, open_object, read_items, read_key, read_members, read_token,
  read_value, require_end, stream_length, string_token,
}

module _ {A : Type 0} where
  -- A call settles with a value or an error, and leaves at least `k` of `n` tokens behind it.
  abbrev Within : ℕ → ℕ → Result (A × Stream) → Type 0
  Within k n (ok (a, d)) = k + stream_length d ≤ n
  Within k n (err message) = Unit
  Within k n panic = ⊥
  Within k n hang = ⊥

module _ {A B : Type 0} where
  Within-bind :
      (j k n n' : ℕ) (m : Result (A × Stream)) (g : A × Stream → Result (B × Stream))
      → Within k n m
      → ((a : A) (d : Stream) → k + stream_length d ≤ n → Within j n' (g (a, d)))
      → Within j n' (m >>= g)
  Within-bind j k n n' (ok (a, d)) g h rest = rest a d h
  Within-bind j k n n' (err message) g h rest = tt
  Within-bind j k n n' panic g h rest = absurd h
  Within-bind j k n n' hang g h rest = absurd h

module _ {B : Type 0} where
  Within-check :
      (j n : ℕ) (m : Check) (g : Result (B × Stream))
      → m ≢ panic
      → m ≢ hang
      → Within j n g
      → Within j n (m >> g)
  Within-check j n (ok a) g p q h = h
  Within-check j n (err message) g p q h = tt
  Within-check j n panic g p q h = absurd (p refl)
  Within-check j n hang g p q h = absurd (q refl)

check_number-ne-panic : (v : Text) → check_number v ≢ panic
unfolding check_number check_exponent
check_number-ne-panic v = ground arith

check_number-ne-hang : (v : Text) → check_number v ≢ hang
unfolding check_number check_exponent
check_number-ne-hang v = ground arith

read_key-Within : (seen : List Text) (d : Stream) → Within 1 (stream_length d) (read_key seen d)
unfolding read_key
read_key-Within seen (next (string_token name) d) = elim (Bool-cases (contains seen name)) [
  | inl old ↦ rw old tt
  | inr new ↦ rw new (omega arith)
]
read_key-Within seen eof = tt
read_key-Within seen (bad message) = tt
read_key-Within seen (next open_object d) = tt
read_key-Within seen (next _ d) = tt

close_members-Within :
    (n : ℕ) (ms : Members) (d : Stream)
    → stream_length d ≤ n
    → Within 1 (suc n) (close_members (ms, d))
unfolding close_members
close_members-Within n ms (next close_object d) h = omega arith
close_members-Within n ms eof h = tt
close_members-Within n ms (bad message) h = tt
close_members-Within n ms (next _ d) h = tt

close_items-Within :
    (n : ℕ) (xs : Items) (d : Stream) → stream_length d ≤ n → Within 1 (suc n) (close_items (xs, d))
unfolding close_items
close_items-Within n xs (next close_array d) h = omega arith
close_items-Within n xs eof h = tt
close_items-Within n xs (bad message) h = tt
close_items-Within n xs (next _ d) h = tt

module _ (members : Stream → Result (Members × Stream))
    (items : Stream → Result (Items × Stream)) where
  read_token-Within :
      (d : Stream)
      → ((d' : Stream)
          → stream_length d' < stream_length d
          → Within 0 (stream_length d') (members d'))
      → ((d' : Stream)
          → stream_length d' < stream_length d
          → Within 0 (stream_length d') (items d'))
      → Within 1 (stream_length d) (read_token members items d)
  unfolding read_token
  read_token-Within eof hm hi = tt
  read_token-Within (bad message) hm hi = tt
  read_token-Within (next (number_token v) d) hm hi =
      Within-check 1 _ (check_number v) (ok (num v, d)) (check_number-ne-panic v)
        (check_number-ne-hang v) (omega arith)
  read_token-Within (next (string_token v) d) hm hi = omega arith
  read_token-Within (next (bool_token v) d) hm hi = omega arith
  read_token-Within (next null_token d) hm hi = omega arith
  read_token-Within (next open_object d) hm hi =
      Within-bind 1 0 (stream_length d) _ (members d) close_members (hm d (omega arith))
        (λ ms d' h. close_members-Within (stream_length d) ms d' (omega arith))
  read_token-Within (next open_array d) hm hi =
      Within-bind 1 0 (stream_length d) _ (items d) close_items (hi d (omega arith))
        (λ xs d' h. close_items-Within (stream_length d) xs d' (omega arith))
  read_token-Within (next close_object d) hm hi = tt
  read_token-Within (next close_array d) hm hi = tt

mutual
  unfolding read_value

  read_value-Within :
      (f depth : ℕ) (d : Stream)
      → 2 * stream_length d + 1 ≤ f
      → Within 1 (stream_length d) (read_value f depth d)
  read_value-Within zero depth d h = absurd (omega arith)
  read_value-Within (suc f) depth d h = elim (Bool-cases (ltb 16 depth)) [
    | inl deep ↦ rw deep tt
    | inr shallow ↦ rw shallow (
        read_token-Within (read_members f depth []) (read_items f depth) d
          (λ d' less. read_members-Within f depth [] d' (omega arith))
          (λ d' less. read_items-Within f depth d' (omega arith)))
  ]

  read_members-Within :
      (f depth : ℕ) (seen : List Text) (d : Stream)
      → 2 * stream_length d + 2 ≤ f
      → Within 0 (stream_length d) (read_members f depth seen d)
  read_members-Within zero depth seen d h = absurd (omega arith)
  read_members-Within (suc f) depth seen d h = elim (Bool-cases (more d)) [
    | inr done ↦ rw done (omega arith)
    | inl going ↦ rw going (
        Within-bind 0 1 (stream_length d) _ (read_key seen d) _ (read_key-Within seen d)
          λ name d₁ h₁.
            Within-bind 0 1 (stream_length d₁) _ (read_value f (depth + 1) d₁) _
              (read_value-Within f (depth + 1) d₁ (omega arith))
              λ v d₂ h₂.
                Within-bind 0 0 (stream_length d₂) _ (read_members f depth (name ∷ seen) d₂) _
                  (read_members-Within f depth (name ∷ seen) d₂ (omega arith))
                  λ ms d₃ h₃. omega arith)
  ]

  read_items-Within :
      (f depth : ℕ) (d : Stream)
      → 2 * stream_length d + 2 ≤ f
      → Within 0 (stream_length d) (read_items f depth d)
  read_items-Within zero depth d h = absurd (omega arith)
  read_items-Within (suc f) depth d h = elim (Bool-cases (more d)) [
    | inr done ↦ rw done (omega arith)
    | inl going ↦ rw going (
        Within-bind 0 1 (stream_length d) _ (read_value f (depth + 1) d) _
          (read_value-Within f (depth + 1) d (omega arith))
          λ v d₁ h₁.
            Within-bind 0 0 (stream_length d₁) _ (read_items f depth d₁) _
              (read_items-Within f depth d₁ (omega arith)) λ vs d₂ h₂. omega arith)
  ]

-- Decoding always settles: it returns a value or an error, and neither panics nor loops.
abbrev pub IsSettled {ℓ} : {A : Type ℓ} → Result A → Type 0
IsSettled (ok a) = Unit
IsSettled (err message) = Unit
IsSettled panic = ⊥
IsSettled hang = ⊥

require_end-IsSettled : (v : Value) (d : Stream) → IsSettled (require_end (v, d))
unfolding require_end
require_end-IsSettled v eof = tt
require_end-IsSettled v (bad message) = tt
require_end-IsSettled v (next t d) = tt

IsSettled-end : (n : ℕ) (r : Result (Value × Stream)) → Within 1 n r → IsSettled (r >>= require_end)
IsSettled-end n (ok (v, d)) h = require_end-IsSettled v d
IsSettled-end n (err message) h = tt
IsSettled-end n panic h = absurd h
IsSettled-end n hang h = absurd h

pub decode_stream-IsSettled : (d : Stream) → IsSettled (decode_stream d)
unfolding decode_stream
decode_stream-IsSettled d =
    IsSettled-end (stream_length d) (read_value (2 * stream_length d + 1) 0 d)
      (read_value-Within (2 * stream_length d + 1) 0 d (omega arith))

-- Whatever the text, decoding it returns a value or an error: it neither panics nor runs on.
pub decode_parameter_json-IsSettled :
    ⦃t : Tokenizer⦄ (raw : Text) → IsSettled (decode_parameter_json raw)
unfolding decode_parameter_json
decode_parameter_json-IsSettled ⦃t⦄ raw =
    elim (Bool-cases (length raw == 0 || ltb 65536 (length raw))) [
      | inl out ↦ rw out tt
      | inr fits ↦ rw fits (decode_stream-IsSettled (t.tokens raw))
    ]
