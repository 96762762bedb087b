-- ===== src/Json/Canonical/Faithful.antt =====
-- Values that are spelled alike differ in the order of members and in the spelling of numbers alone.
use mathlib.Core.Path.{subst}
use provider_sdk.Base.{
  Bool-cases, Option, ap, inl, inr, list_eq, nat_eq, none, ok, refl, some, sym, ℕ, ◌+◌, ◌==◌, ◌↔◌,
  ◌∙◌, ◌≡◌,
}
use provider_sdk.Json.{
  Items, Members, Tokenizer, Value, arr, bool, cons, decode_parameter_json, end, member, nil, null,
  num, obj, str,
}
use provider_sdk.Selection.{selector_eq}
use provider_sdk.Text.{Text}
use provider_sdk.Json.Alike.{
  Alike, EqualNumbers, EqualValues, Found, ItemsAlike, MembersAlike, SameValue, set_aside,
  take_member,
}
use provider_sdk.Json.Bounds.{
  IsDecoded, IsNumber, ItemsDecoded, MembersDecoded, decode_parameter_json-IsDecoded,
}
use provider_sdk.Json.Canonical.{
  canonical_items, canonical_members, canonical_number, canonical_value,
}
use provider_sdk.Json.Canonical.Exact.{canonical_number_iff}

-- The spelling of a member that was found, and of the others.
abbrev spelled_found : Option (Value × Members) → Option (Value × Members)
spelled_found none = none
spelled_found (some (w, rest)) = some (canonical_value w, canonical_members rest)

set_aside-spelled_found :
    (name : Text) (v : Value) (o : Option (Value × Members))
    → set_aside name (canonical_value v) (spelled_found o) ≡ spelled_found (set_aside name v o)
unfolding canonical_members
set_aside-spelled_found name v none = refl
set_aside-spelled_found name v (some (w, rest)) = refl

-- In a spelled object a name finds the spelling of what it found before.
take_member-canonical_members :
    (k : Text) (ms : Members)
    → take_member k (canonical_members ms) ≡ spelled_found (take_member k ms)
unfolding take_member canonical_members
take_member-canonical_members k end = refl
take_member-canonical_members k (member name v ms) = elim (Bool-cases (name == k)) [
  | inl same ↦ rw same refl
  | inr other ↦ rw other (
      ap (set_aside name (canonical_value v)) (take_member-canonical_members k ms)
      ∙ set_aside-spelled_found name v (take_member k ms))
]

abbrev FoundDecoded : ℕ → Option (Value × Members) → Type 0
FoundDecoded depth none = Unit
FoundDecoded depth (some (w, rest)) = IsDecoded depth w × MembersDecoded depth rest

set_aside-decoded :
    (depth : ℕ) (name : Text) (v : Value) (o : Option (Value × Members))
    → IsDecoded depth v
    → FoundDecoded depth o
    → FoundDecoded depth (set_aside name v o)
set_aside-decoded depth name v none h k = tt
set_aside-decoded depth name v (some (w, rest)) h (k, ks) = (k, (h, ks))

take_member-decoded :
    (depth : ℕ) (k : Text) (ms : Members)
    → MembersDecoded depth ms
    → FoundDecoded depth (take_member k ms)
unfolding take_member
take_member-decoded depth k end h = tt
take_member-decoded depth k (member name v ms) (h, hs) = elim (Bool-cases (name == k)) [
  | inl same ↦ rw same (h, hs)
  | inr other ↦
      rw other
        (set_aside-decoded depth name v (take_member k ms) h (take_member-decoded depth k ms hs))
]

-- What holds of the spelling of a member that is found under a name, and of the others, goes back to them.
unspelled :
    (depth : ℕ) (k : Text) (ns : Members) (P Q : Value → Members → Type 0)
    → MembersDecoded depth ns
    → ((w : Value) (rest : Members)
        → IsDecoded depth w
        → MembersDecoded depth rest
        → P (canonical_value w) (canonical_members rest)
        → Q w rest)
    → Found P (take_member k (canonical_members ns))
    → Found Q (take_member k ns)
unspelled depth k ns P Q decoded back found =
    go (take_member k ns) (take_member-decoded depth k ns decoded)
      (subst (Found P) (take_member-canonical_members k ns) found)
  where
    go :
        (o : Option (Value × Members))
        → FoundDecoded depth o
        → Found P (spelled_found o)
        → Found Q o
    go none d f = f
    go (some (w, rest)) (d, ds) f = back w rest d ds f

-- The other direction needs nothing of the values.
respelled :
    (k : Text) (ns : Members) (P Q : Value → Members → Type 0)
    → ((w : Value) (rest : Members) → Q w rest → P (canonical_value w) (canonical_members rest))
    → Found Q (take_member k ns)
    → Found P (take_member k (canonical_members ns))
respelled k ns P Q forth found =
    subst (Found P) (sym (take_member-canonical_members k ns)) (go (take_member k ns) found)
  where
    go : (o : Option (Value × Members)) → Found Q o → Found P (spelled_found o)
    go none f = f
    go (some (w, rest)) f = forth w rest f

EqualNumbers-respelled : (s t : Text) → EqualNumbers s t → canonical_number s ≡ canonical_number t
EqualNumbers-respelled s t q =
    (canonical_number_iff s t q.left q.right q.reads_left q.reads_right).1 q.equal

EqualNumbers-iff :
    (s t : Text)
    → IsNumber s
    → IsNumber t
    → (canonical_number s ≡ canonical_number t) ↔ EqualNumbers s t
EqualNumbers-iff s t h k = (
  λ e. record {
    left = h.value;
    right = k.value;
    reads_left = h.reads;
    reads_right = k.reads;
    equal = (canonical_number_iff s t h.value k.value h.reads k.reads).0 e;
  },
  λ q. EqualNumbers-respelled s t q,
)

mutual
  unfolding canonical_value Alike

  canonical_value-unspelled :
      (depth level : ℕ) (v w : Value)
      → IsDecoded depth v
      → IsDecoded level w
      → SameValue (canonical_value v) (canonical_value w)
      → EqualValues v w
  canonical_value-unspelled depth level null null h k e = tt
  canonical_value-unspelled depth level (bool b) (bool c) h k e = e
  canonical_value-unspelled depth level (num s) (num t) (_, h) (_, k) e =
      (EqualNumbers-iff s t h k).0 e
  canonical_value-unspelled depth level (str s) (str t) h k e = e
  canonical_value-unspelled depth level (arr xs) (arr ys) (_, h) (_, k) e =
      canonical_items-unspelled (depth + 1) (level + 1) xs ys h k e
  canonical_value-unspelled depth level (obj ms) (obj ns) (_, _, h) (_, _, k) e =
      canonical_members-unspelled (depth + 1) (level + 1) ms ns h k e
  canonical_value-unspelled depth level _ _ h k e = e

  canonical_members-unspelled :
      (depth level : ℕ) (ms ns : Members)
      → MembersDecoded depth ms
      → MembersDecoded level ns
      → MembersAlike (λ s t. s ≡ t) (canonical_members ms) (canonical_members ns)
      → MembersAlike EqualNumbers ms ns
  canonical_members-unspelled depth level end end h k e = tt
  canonical_members-unspelled depth level end (member o w ns) h k e = e
  canonical_members-unspelled depth level (member n v ms) ns (h, hs) k e =
      unspelled level n ns _ _ k
        (λ w rest d ds (a, others). (
          canonical_value-unspelled depth level v w h d a,
          canonical_members-unspelled depth level ms rest hs ds others,
        ))
        e

  canonical_items-unspelled :
      (depth level : ℕ) (xs ys : Items)
      → ItemsDecoded depth xs
      → ItemsDecoded level ys
      → ItemsAlike (λ s t. s ≡ t) (canonical_items xs) (canonical_items ys)
      → ItemsAlike EqualNumbers xs ys
  canonical_items-unspelled depth level nil nil h k e = tt
  canonical_items-unspelled depth level (cons v xs) (cons w ys) (h, hs) (k, ks) (e, es) = (
    canonical_value-unspelled depth level v w h k e,
    canonical_items-unspelled depth level xs ys hs ks es,
  )
  canonical_items-unspelled depth level _ _ h k e = e

mutual
  unfolding canonical_value Alike

  -- Values that are equal up to the spelling of their numbers have equal canonical spellings.
  pub canonical_value-respelled :
      (v w : Value) → EqualValues v w → SameValue (canonical_value v) (canonical_value w)
  canonical_value-respelled null null e = tt
  canonical_value-respelled (bool b) (bool c) e = e
  canonical_value-respelled (num s) (num t) e = EqualNumbers-respelled s t e
  canonical_value-respelled (str s) (str t) e = e
  canonical_value-respelled (arr xs) (arr ys) e = canonical_items-respelled xs ys e
  canonical_value-respelled (obj ms) (obj ns) e = canonical_members-respelled ms ns e
  canonical_value-respelled _ _ e = e

  canonical_members-respelled :
      (ms ns : Members)
      → MembersAlike EqualNumbers ms ns
      → MembersAlike (λ s t. s ≡ t) (canonical_members ms) (canonical_members ns)
  canonical_members-respelled end end e = tt
  canonical_members-respelled end (member o w ns) e = e
  canonical_members-respelled (member n v ms) ns e =
      respelled n ns _ _
        (λ w rest (a, others).
          (canonical_value-respelled v w a, canonical_members-respelled ms rest others))
        e

  canonical_items-respelled :
      (xs ys : Items)
      → ItemsAlike EqualNumbers xs ys
      → ItemsAlike (λ s t. s ≡ t) (canonical_items xs) (canonical_items ys)
  canonical_items-respelled nil nil e = tt
  canonical_items-respelled (cons v xs) (cons w ys) (e, es) =
      (canonical_value-respelled v w e, canonical_items-respelled xs ys es)
  canonical_items-respelled _ _ e = e

-- The canonical spellings of the values that two texts decode to are one Go value, in which the members of
-- an object have no order, exactly if the values are equal up to the order of members and the spelling of
-- equal numbers: no two values with different numbers, names, strings or structure share a spelling,
-- and a text with its members in another order has the same one.
pub canonical_value_iff :
    ⦃t : Tokenizer⦄ (s u : Text) (v w : Value)
    → decode_parameter_json s ≡ ok v
    → decode_parameter_json u ≡ ok w
    → SameValue (canonical_value v) (canonical_value w) ↔ EqualValues v w
canonical_value_iff s u v w h k = (
  canonical_value-unspelled 0 0 v w (decode_parameter_json-IsDecoded s v h)
      (decode_parameter_json-IsDecoded u w k),
  canonical_value-respelled v w,
)
