-- ===== src/Base/Counting.antt =====
-- Two lists of one length, the first without repetition: if the second holds the first's elements, it
-- holds no others.
use mathlib.Core.Path.{◌≡◌, sym, refl, subst, ◌∙◌}
use mathlib.Core.Logic.{◌⊎◌, inl, inr}
use mathlib.Core.List.{List, [], ◌∷◌}
use Prim.Native.Nat.{suc, ◌≤◌}
use native.Mathlib.Omega.{arith}
use provider_sdk.Base.Lists.{In, Distinct, length}

module _ {A : Type 0} where
  -- The list without one occurrence of an element.
  without :
      (x : A) (ys : List A)
      → In x ys
      → (zs : List A) × (length ys ≡ suc (length zs)) × ((y : A) → In y ys → (x ≡ y) ⊎ In y zs)
  without x (y ∷ ys) (inl e) =
      (ys, refl, λ z m. elim m [ inl e' ↦ inl (sym e ∙ e') | inr later ↦ inr later ])
  without x (y ∷ ys) (inr m) =
      let (zs, sized, split) = without x ys m in
      (
        y ∷ zs,
        omega (arith, sized),
        λ z there. elim there [
          | inl e ↦ inr (inl e)
          | inr later ↦ elim (split z later) [ inl e ↦ inl e | inr kept ↦ inr (inr kept) ]
        ],
      )
  without x [] m = absurd m

  pub In-of_length :
      (xs ys : List A)
      → Distinct xs
      → ((x : A) → In x xs → In x ys)
      → length ys ≤ length xs
      → (y : A) → In y ys
      → In y xs
  In-of_length [] [] d sub le y m = m
  In-of_length [] (z ∷ zs) d sub le y m = absurd (omega arith)
  In-of_length (x ∷ xs) ys (new, d) sub le y m =
      let (zs, sized, split) = without x ys (sub x (inl refl)) in
      let kept : (z : A) → In z xs → In z zs = λ z there. elim (split z (sub z (inr there))) [
        | inl e ↦ absurd (new (subst (λ w. In w xs) (sym e) there))
        | inr k ↦ k
      ] in
      elim (split y m) [
        | inl e ↦ inl e
        | inr later ↦ inr (In-of_length xs zs d kept (omega arith) y later)
      ]
