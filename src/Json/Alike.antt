-- ===== src/Json/Alike.antt =====
-- JSON values as Go compares them: an object is a map, whose members have no order.
use Prim.Native.Nat.{Ordering}
use provider_sdk.Base.{Option, if◌then◌else◌, list_eq, nat_eq, none, some, ◌==◌, ◌≡◌}
use provider_sdk.Json.{
  Items, Members, Value, arr, bool, cons, end, member, nil, null, num, obj, str,
}
use provider_sdk.Selection.{selector_eq}
use provider_sdk.Text.{Text}
use provider_sdk.Json.Number.{Decimal, rat_cmp, rat_of}

-- A member that stands before the one that was found is among the others.
abbrev pub set_aside : Text → Value → Option (Value × Members) → Option (Value × Members)
set_aside name v none = none
set_aside name v (some (w, rest)) = some (w, member name v rest)

-- The first member with the name, and the others.
unfoldable pub take_member : Text → Members → Option (Value × Members)
take_member k end = none
take_member k (member name v ms) =
    if name == k then some (v, ms) else set_aside name v (take_member k ms)

-- What is asked of a member that was found, and of the others.
abbrev pub Found : (Value → Members → Type 0) → Option (Value × Members) → Type 0
Found P none = ⊥
Found P (some (w, rest)) = P w rest

unfoldable mutual
  -- Values that differ at most in the order of the members of their objects and in their numbers, which
  -- are related by `N`.
  pub Alike : (Text → Text → Type 0) → Value → Value → Type 0
  Alike N null null = Unit
  Alike N (bool b) (bool c) = b ≡ c
  Alike N (num s) (num t) = N s t
  Alike N (str s) (str t) = s ≡ t
  Alike N (arr xs) (arr ys) = ItemsAlike N xs ys
  Alike N (obj ms) (obj ns) = MembersAlike N ms ns
  Alike N _ _ = ⊥

  -- Each member has its counterpart by name, and none is left over.
  pub MembersAlike : (Text → Text → Type 0) → Members → Members → Type 0
  MembersAlike N end end = Unit
  MembersAlike N end (member _ _ _) = ⊥
  MembersAlike N (member name v ms) ns =
      Found (λ w rest. Alike N v w × MembersAlike N ms rest) (take_member name ns)

  pub ItemsAlike : (Text → Text → Type 0) → Items → Items → Type 0
  ItemsAlike N nil nil = Unit
  ItemsAlike N (cons v xs) (cons w ys) = Alike N v w × ItemsAlike N xs ys
  ItemsAlike N _ _ = ⊥

-- One value in Go: the number texts are the same.
abbrev pub SameValue : Value → Value → Type 0
SameValue v w = Alike (λ s t. s ≡ t) v w

-- Two texts of one rational number.
pub record EqualNumbers (s t : Text) : Type 0 where
  pub left : Decimal
  pub right : Decimal
  pub reads_left : rat_of s ≡ some left
  pub reads_right : rat_of t ≡ some right
  pub equal : rat_cmp left right ≡ Ordering.eq

-- One value up to the spelling of its numbers.
abbrev pub EqualValues : Value → Value → Type 0
EqualValues v w = Alike EqualNumbers v w
