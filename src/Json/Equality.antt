-- ===== src/Json/Equality.antt =====
-- `parameterType` and `parameterEqual` of constraints.go.
use Prim.Native.Nat.{compare, Ordering}
use provider_sdk.Base.{
  Bool, Distinct, In, Option, Result, ap, arith, eq_iff, eq_refl, false, if◌then◌else◌, inr,
  list_eq, nat_eq, none, not, ok, refl, some, suc, true, ℕ, ◌+◌, ◌==◌, ◌>>=◌, ◌||◌, ◌≡◌,
}
use provider_sdk.Text.{Text, bytes}
use provider_sdk.Json.Number.{
  Decimal, above, below, compare_number, compare_rats, is_int, rat_cmp, rat_of,
}
use provider_sdk.Json.{
  Items, Members, Tokenizer, Value, arr, bool, cons, decode_parameter_json, end, member, nil, null,
  num, obj, str,
}
use provider_sdk.Json.Bounds.{
  IsDecoded, IsNumber, ItemsDecoded, MembersDecoded, decode_parameter_json-IsDecoded, member_names,
}
use provider_sdk.Selection.{selector_eq}

abbrev pub is_eq : Ordering → Bool
is_eq Ordering.eq = true
is_eq _ = false

abbrev pub is_gt : Ordering → Bool
is_gt Ordering.gt = true
is_gt _ = false

abbrev pub is_lt : Ordering → Bool
is_lt Ordering.lt = true
is_lt _ = false

-- `value.(string)` and the other type assertions.
abbrev pub is_string : Value → Bool
is_string (str s) = true
is_string _ = false

abbrev pub is_bool : Value → Bool
is_bool (bool b) = true
is_bool _ = false

abbrev pub is_object : Value → Bool
is_object (obj ms) = true
is_object _ = false

abbrev pub is_array : Value → Bool
is_array (arr xs) = true
is_array _ = false

abbrev numeric : Option Decimal → Bool → Bool
numeric none whole = false
numeric (some x) whole = whole || is_int x

-- A number of the type "number", or of the type "integer" if not all numbers will do.
unfoldable pub is_numeric : Value → Bool → Bool
is_numeric (num n) whole = numeric (rat_of n) whole
is_numeric _ whole = false

unfoldable pub parameter_type : Value → Text → Bool
unfolding is_numeric
parameter_type value kind =
    if kind == bytes "string"
    then is_string value
    else if kind == bytes "boolean"
    then is_bool value
    else if kind == bytes "number" || kind == bytes "integer"
    then is_numeric value (kind == bytes "number")
    else if kind == bytes "object"
    then is_object value
    else if kind == bytes "array"
    then is_array value
    else false

-- `len` of a slice and of a map.
abbrev pub count_items : Items → ℕ
count_items nil = 0
count_items (cons v vs) = suc (count_items vs)

abbrev pub count_members : Members → ℕ
count_members end = 0
count_members (member name v ms) = suc (count_members ms)

-- `w, ok := y[k]`
abbrev pub member_of : Text → Members → Option Value
member_of k end = none
member_of k (member name v ms) = if name == k then some v else member_of k ms

-- One round of the loop over the members of a map, given the comparison of the member's value and
-- the answer for the other members.
unfoldable pub equal_found : (Value → Result Bool) → Option Value → Result Bool → Result Bool
equal_found same_as none rest = ok false
equal_found same_as (some w) rest = do same ← same_as w; if same then rest else ok false

unfoldable mutual
  unfolding equal_found

  pub parameter_equal : Value → Value → Result Bool
  parameter_equal (num x) (num y) = do c ← compare_number x y; ok (is_eq c)
  parameter_equal (obj x) (obj y) =
      if count_members x == count_members y then equal_members x y else ok false
  parameter_equal (arr x) (arr y) =
      if count_items x == count_items y then equal_items x y else ok false
  parameter_equal null null = ok true
  parameter_equal (bool a) (bool b) = ok (if a then b else not b)
  parameter_equal (str a) (str b) = ok (a == b)
  parameter_equal _ _ = ok false

  pub equal_members : Members → Members → Result Bool
  equal_members end y = ok true
  equal_members (member k v x) y =
      equal_found (parameter_equal v) (member_of k y) (equal_members x y)

  pub equal_items : Items → Items → Result Bool
  equal_items (cons v x) (cons w y) = do
    same ← parameter_equal v w
    if same then equal_items x y else ok false
  equal_items _ _ = ok true

compare_self : (n : ℕ) → is_eq (compare n n) ≡ true
compare_self n = ground arith

rat_cmp_self : (x : Decimal) → is_eq (rat_cmp x x) ≡ true
unfolding rat_cmp
rat_cmp_self x = compare_self (above x x + below x x)

compare_number_self : (t : Text) → IsNumber t → (compare_number t t >>= λ c. ok (is_eq c)) ≡ ok true
unfolding compare_number compare_rats
compare_number_self t number = rw number.reads (ap ok (rat_cmp_self number.value))

-- Each member of the first list is the one that a lookup in the second finds.
abbrev Agree : Members → Members → Type 0
Agree end y = Unit
Agree (member k v x) y = (member_of k y ≡ some v) × Agree x y

Agree-cons :
    (k : Text) (v : Value) (x y : Members)
    → ¬ In k (member_names x)
    → Agree x y
    → Agree x (member k v y)
Agree-cons k v end y new h = tt
Agree-cons k v (member j w x) y new (found, h) =
    (ground (arith, eq_iff k j), Agree-cons k v x y (λ m. new (inr m)) h)

Agree-self : (x : Members) → Distinct (member_names x) → Agree x x
Agree-self end d = tt
Agree-self (member k v x) (new, d) =
    (ground (arith, eq_iff k k), Agree-cons k v x x new (Agree-self x d))

mutual
  unfolding parameter_equal

  parameter_equal_self : (depth : ℕ) (v : Value) → IsDecoded depth v → parameter_equal v v ≡ ok true
  parameter_equal_self depth null h = refl
  parameter_equal_self depth (bool true) h = refl
  parameter_equal_self depth (bool false) h = refl
  parameter_equal_self depth (num t) (_, number) = compare_number_self t number
  parameter_equal_self depth (str s) h = rw eq_refl
  parameter_equal_self depth (arr xs) (_, h) = rw eq_refl (equal_items_self (depth + 1) xs h)
  parameter_equal_self depth (obj ms) (_, d, h) =
      rw eq_refl (equal_members_self (depth + 1) ms ms h (Agree-self ms d))

  equal_members_self :
      (depth : ℕ) (x y : Members) → MembersDecoded depth x → Agree x y → equal_members x y ≡ ok true
  equal_members_self depth end y h a = refl
  equal_members_self depth (member k v x) y (hv, h) (found, a) =
      rw found (rw (parameter_equal_self depth v hv) (equal_members_self depth x y h a))

  equal_items_self : (depth : ℕ) (x : Items) → ItemsDecoded depth x → equal_items x x ≡ ok true
  equal_items_self depth nil h = refl
  equal_items_self depth (cons v x) (hv, h) =
      rw (parameter_equal_self depth v hv) (equal_items_self depth x h)

-- A decoded value equals itself: each of its numbers compares equal to itself and each member of
-- an object is found under its own name. So a value that is decoded from an allowed text is
-- always among the allowed values.
pub decode-parameter_equal :
    ⦃t : Tokenizer⦄ (raw : Text) (v : Value)
    → decode_parameter_json raw ≡ ok v
    → parameter_equal v v ≡ ok true
decode-parameter_equal raw v h = parameter_equal_self 0 v (decode_parameter_json-IsDecoded raw v h)
