-- ===== src/Json/Canonical/Values.antt =====
-- Values that differ in the spelling of their numbers alone.
use mathlib.Core.Path.{ap₂}
use Prim.Native.Nat.{Ordering}
use provider_sdk.Json.{Items, Members, Value, arr, cons, end, member, nil, num, obj}
use provider_sdk.Base.{ap, refl, some, ◌≡◌}
use provider_sdk.Text.{Text}
use provider_sdk.Json.Canonical.{canonical_items, canonical_members, canonical_value}
use provider_sdk.Json.Number.{Decimal, rat_cmp, rat_of}
use provider_sdk.Json.Canonical.Exact.{canonical_number_iff}

mutual
  pub data Respelled : Value → Value → Type 0 where
    unchanged : (v : Value) → Respelled v v
    respelled_number :
        (v w : Text) (x y : Decimal)
        → rat_of v ≡ some x
        → rat_of w ≡ some y
        → rat_cmp x y ≡ Ordering.eq
        → Respelled (num v) (num w)
    respelled_object : {ms ns : Members} → MembersRespelled ms ns → Respelled (obj ms) (obj ns)
    respelled_array : {xs ys : Items} → ItemsRespelled xs ys → Respelled (arr xs) (arr ys)

  pub data MembersRespelled : Members → Members → Type 0 where
    no_members : MembersRespelled end end
    member_and :
        (name : Text) {v w : Value} {ms ns : Members}
        → Respelled v w
        → MembersRespelled ms ns
        → MembersRespelled (member name v ms) (member name w ns)

  pub data ItemsRespelled : Items → Items → Type 0 where
    no_items : ItemsRespelled nil nil
    item_and :
        {v w : Value} {xs ys : Items}
        → Respelled v w
        → ItemsRespelled xs ys
        → ItemsRespelled (cons v xs) (cons w ys)

mutual
  unfolding canonical_value

  -- Their canonical spellings are the same.
  pub canonical_value-Respelled :
      {v w : Value} → Respelled v w → canonical_value v ≡ canonical_value w
  canonical_value-Respelled (unchanged v) = refl
  canonical_value-Respelled (respelled_number v w x y h k e) =
      ap num ((canonical_number_iff v w x y h k).1 e)
  canonical_value-Respelled (respelled_object h) = ap obj (canonical_members-Respelled h)
  canonical_value-Respelled (respelled_array h) = ap arr (canonical_items-Respelled h)

  canonical_members-Respelled :
      {ms ns : Members} → MembersRespelled ms ns → canonical_members ms ≡ canonical_members ns
  canonical_members-Respelled no_members = refl
  canonical_members-Respelled (member_and name h hs) =
      ap₂ (member name) (canonical_value-Respelled h) (canonical_members-Respelled hs)

  canonical_items-Respelled :
      {xs ys : Items} → ItemsRespelled xs ys → canonical_items xs ≡ canonical_items ys
  canonical_items-Respelled no_items = refl
  canonical_items-Respelled (item_and h hs) =
      ap₂ cons (canonical_value-Respelled h) (canonical_items-Respelled hs)
