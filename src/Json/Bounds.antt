-- ===== src/Json/Bounds.antt =====
-- What `decodeParameterJSON` promises of a value: unique names, bounded nesting, bounded numbers.
use provider_sdk.Base.{
  >>-eq-ok, Bool-cases, Distinct, Fresh, Fresh-cons_iff, Fresh-nil_iff, In, List, Option, Result,
  [], arith, contains, contains-eq-false_iff, err, hang, inl, inr, length, list_eq, ltb, nat_eq,
  none, ok, panic, pass, refl, reject, some, suc, zero, ℕ, ◌*◌, ◌+◌, ◌==◌, ◌>>=◌, ◌||◌, ◌∷◌, ◌≡◌,
  ◌≤◌,
}
use provider_sdk.Text.{Text}
use provider_sdk.Json.Number.{
  Decimal, break_at, check_exponent, check_number, is_exponent_mark, rat_of,
}
use provider_sdk.Json.{
  Items, Members, Stream, Tokenizer, Value, arr, bad, bool, bool_token, close_array, close_items,
  close_members, close_object, cons, decode_parameter_json, decode_stream, end, eof, member, more,
  next, nil, null, null_token, num, number_token, obj, open_array, open_object, read_items,
  read_key, read_members, read_token, read_value, require_end, str, stream_length, string_token,
}

abbrev pub member_names : Members → List Text
member_names end = []
member_names (member name v ms) = name ∷ member_names ms

-- A number that `compareNumber` can read, in bounded space.
pub record IsNumber (t : Text) : Type 0 where
  pub short : length t ≤ 128
  pub value : Decimal
  pub reads : rat_of t ≡ some value

-- A value whose root stands under `depth` others: no object repeats a name, no value stands under
-- more than 16 others, and each number is readable.
abbrev mutual
  pub IsDecoded : ℕ → Value → Type 0
  IsDecoded depth null = depth ≤ 16
  IsDecoded depth (bool b) = depth ≤ 16
  IsDecoded depth (num t) = (depth ≤ 16) × IsNumber t
  IsDecoded depth (str t) = depth ≤ 16
  IsDecoded depth (arr xs) = (depth ≤ 16) × ItemsDecoded (depth + 1) xs
  IsDecoded depth (obj ms) =
      (depth ≤ 16) × Distinct (member_names ms) × MembersDecoded (depth + 1) ms

  pub ItemsDecoded : ℕ → Items → Type 0
  ItemsDecoded depth nil = Unit
  ItemsDecoded depth (cons v vs) = IsDecoded depth v × ItemsDecoded depth vs

  pub MembersDecoded : ℕ → Members → Type 0
  MembersDecoded depth end = Unit
  MembersDecoded depth (member name v ms) = IsDecoded depth v × MembersDecoded depth ms

-- A postcondition of successful results.
abbrev Gives {ℓ} : {A : Type ℓ} → (A → Type 0) → Result A → Type 0
Gives P (ok a) = P a
Gives P (err message) = Unit
Gives P panic = Unit
Gives P hang = Unit

Gives-bind :
    {A B : Type 0} (P : A → Type 0) (Q : B → Type 0) (m : Result A) (g : A → Result B)
    → Gives P m
    → ((a : A) → P a → Gives Q (g a))
    → Gives Q (m >>= g)
Gives-bind P Q (ok a) g h rest = rest a h
Gives-bind P Q (err message) g h rest = tt
Gives-bind P Q panic g h rest = tt
Gives-bind P Q hang g h rest = tt

Gives-of : {A : Type 0} (P : A → Type 0) (m : Result A) → ((a : A) → m ≡ ok a → P a) → Gives P m
Gives-of P (ok a) h = h a refl
Gives-of P (err message) h = tt
Gives-of P panic h = tt
Gives-of P hang h = tt

of_Gives : {A : Type 0} (P : A → Type 0) (m : Result A) (a : A) → Gives P m → m ≡ ok a → P a
of_Gives P m a h e = rw e at h

rat_of_check :
    (v : Text) (o : Option Decimal)
    → rat_of v ≡ o
    → (elim o [ none ↦ err "invalid parameter number" | some _ ↦ pass ]) ≡ pass
    → (x : Decimal) × (rat_of v ≡ some x)
rat_of_check v none e h = absurd (cc h)
rat_of_check v (some x) e h = (x, e)

check_number-IsNumber : (v : Text) → check_number v ≡ pass → IsNumber v
unfolding check_number
check_number-IsNumber v h =
    let (short, rest) =
      >>-eq-ok (reject (ltb 128 (length v)) "numeric parameter exceeds bounds") _ h in
    let (exponent, read) = >>-eq-ok (check_exponent (break_at is_exponent_mark v).1) _ rest in
    let (x, reads) = rat_of_check v (rat_of v) refl read in
    record { short = ground arith; value = x; reads = reads }

abbrev GivesValue : ℕ → Value × Stream → Type 0
GivesValue depth r = IsDecoded depth r.0

abbrev GivesMembers : ℕ → List Text → Members × Stream → Type 0
GivesMembers depth seen r = Fresh seen (member_names r.0) × MembersDecoded (depth + 1) r.0

abbrev GivesItems : ℕ → Items × Stream → Type 0
GivesItems depth r = ItemsDecoded (depth + 1) r.0

read_key-not-In :
    (seen : List Text) (d : Stream) → Gives (λ (r : Text × Stream). ¬ In r.0 seen) (read_key seen d)
unfolding read_key
read_key-not-In seen (next (string_token name) d) = elim (Bool-cases (contains seen name)) [
  | inl old ↦ rw old tt
  | inr new ↦ rw new ((contains-eq-false_iff seen name).0 new)
]
read_key-not-In seen eof = tt
read_key-not-In seen (bad message) = tt
read_key-not-In seen (next open_object d) = tt
read_key-not-In seen (next _ d) = tt

close_members-IsDecoded :
    (depth : ℕ) (r : Members × Stream)
    → depth ≤ 16
    → GivesMembers depth [] r
    → Gives (GivesValue depth) (close_members r)
unfolding close_members
close_members-IsDecoded depth (ms, next close_object d) h (fresh, m) =
    (h, (Fresh-nil_iff (member_names ms)).0 fresh, m)
close_members-IsDecoded depth (ms, eof) h g = tt
close_members-IsDecoded depth (ms, bad message) h g = tt
close_members-IsDecoded depth (ms, next _ d) h g = tt

close_items-IsDecoded :
    (depth : ℕ) (r : Items × Stream)
    → depth ≤ 16
    → GivesItems depth r
    → Gives (GivesValue depth) (close_items r)
unfolding close_items
close_items-IsDecoded depth (xs, next close_array d) h g = (h, g)
close_items-IsDecoded depth (xs, eof) h g = tt
close_items-IsDecoded depth (xs, bad message) h g = tt
close_items-IsDecoded depth (xs, next _ d) h g = tt

module _ (members : Stream → Result (Members × Stream)) (items : Stream → Result (Items × Stream))
    (depth : ℕ) (shallow : depth ≤ 16) where
  read_token-IsDecoded :
      (d : Stream)
      → ((d' : Stream) → Gives (GivesMembers depth []) (members d'))
      → ((d' : Stream) → Gives (GivesItems depth) (items d'))
      → Gives (GivesValue depth) (read_token members items d)
  unfolding read_token
  read_token-IsDecoded (next (number_token v) d) hm hi =
      Gives-bind (λ (_ : Unit). IsNumber v) (GivesValue depth) (check_number v) _
        (Gives-of _ (check_number v) (λ _. check_number-IsNumber v)) (λ _ number. (shallow, number))
  read_token-IsDecoded (next open_object d) hm hi =
      Gives-bind (GivesMembers depth []) (GivesValue depth) (members d) close_members (hm d)
        (λ r g. close_members-IsDecoded depth r shallow g)
  read_token-IsDecoded (next open_array d) hm hi =
      Gives-bind (GivesItems depth) (GivesValue depth) (items d) close_items (hi d)
        (λ r g. close_items-IsDecoded depth r shallow g)
  read_token-IsDecoded (next (string_token v) d) hm hi = shallow
  read_token-IsDecoded (next (bool_token v) d) hm hi = shallow
  read_token-IsDecoded (next null_token d) hm hi = shallow
  read_token-IsDecoded _ hm hi = tt

mutual
  unfolding read_value

  read_value-IsDecoded :
      (f depth : ℕ) (d : Stream) → Gives (GivesValue depth) (read_value f depth d)
  read_value-IsDecoded zero depth d = tt
  read_value-IsDecoded (suc f) depth d = elim (Bool-cases (ltb 16 depth)) [
    | inl deep ↦ rw deep tt
    | inr shallow ↦ rw shallow (
        read_token-IsDecoded (read_members f depth []) (read_items f depth) depth (ground arith) d
          (λ d'. read_members-IsDecoded f depth [] d') (λ d'. read_items-IsDecoded f depth d'))
  ]

  read_members-IsDecoded :
      (f depth : ℕ) (seen : List Text) (d : Stream)
      → Gives (GivesMembers depth seen) (read_members f depth seen d)
  read_members-IsDecoded zero depth seen d = tt
  read_members-IsDecoded (suc f) depth seen d = elim (Bool-cases (more d)) [
    | inr done ↦ rw done ((tt, tt), tt)
    | inl going ↦ rw going (
        Gives-bind (λ (r : Text × Stream). ¬ In r.0 seen) _ (read_key seen d) _
          (read_key-not-In seen d)
          λ k new.
            Gives-bind (GivesValue (depth + 1)) _ (read_value f (depth + 1) k.1) _
              (read_value-IsDecoded f (depth + 1) k.1)
              λ v value.
                Gives-bind (GivesMembers depth (k.0 ∷ seen)) _
                  (read_members f depth (k.0 ∷ seen) v.1) _
                  (read_members-IsDecoded f depth (k.0 ∷ seen) v.1)
                  λ ms rest. (
                    (Fresh-cons_iff seen k.0 (member_names ms.0)).1 (new, rest.0),
                    (value, rest.1),
                  ))
  ]

  read_items-IsDecoded :
      (f depth : ℕ) (d : Stream) → Gives (GivesItems depth) (read_items f depth d)
  read_items-IsDecoded zero depth d = tt
  read_items-IsDecoded (suc f) depth d = elim (Bool-cases (more d)) [
    | inr done ↦ rw done tt
    | inl going ↦ rw going (
        Gives-bind (GivesValue (depth + 1)) _ (read_value f (depth + 1) d) _
          (read_value-IsDecoded f (depth + 1) d)
          λ v value.
            Gives-bind (GivesItems depth) _ (read_items f depth v.1) _
              (read_items-IsDecoded f depth v.1) λ vs rest. (value, rest))
  ]

require_end-IsDecoded : (r : Value × Stream) → GivesValue 0 r → Gives (IsDecoded 0) (require_end r)
unfolding require_end
require_end-IsDecoded (v, eof) h = h
require_end-IsDecoded (v, bad message) h = tt
require_end-IsDecoded (v, next t d) h = tt

decode_stream-IsDecoded : (d : Stream) → Gives (IsDecoded 0) (decode_stream d)
unfolding decode_stream
decode_stream-IsDecoded d =
    Gives-bind (GivesValue 0) (IsDecoded 0) (read_value (2 * stream_length d + 1) 0 d) require_end
      (read_value-IsDecoded (2 * stream_length d + 1) 0 d) require_end-IsDecoded

-- A decoded value has at most 17 levels, its objects have no repeated names, and each of its
-- numbers has at most 128 bytes and is one that the comparison can read.
pub decode_parameter_json-IsDecoded :
    ⦃t : Tokenizer⦄ (raw : Text) (v : Value) → decode_parameter_json raw ≡ ok v → IsDecoded 0 v
unfolding decode_parameter_json
decode_parameter_json-IsDecoded ⦃t⦄ raw v h =
    of_Gives (IsDecoded 0) (decode_stream (t.tokens raw)) v (decode_stream-IsDecoded (t.tokens raw))
      ((>>-eq-ok
        (reject (length raw == 0 || ltb 65536 (length raw)) "parameter JSON exceeds bounds")
        (decode_stream (t.tokens raw)) h).1)
