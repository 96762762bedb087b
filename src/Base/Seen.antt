-- ===== src/Base/Seen.antt =====
-- The loops that keep a map `seen` of the keys met so far: when do they meet no key twice?
use provider_sdk.Base.Tests.{Eq}
use provider_sdk.Base.Lists.{All, Distinct, In, contains, contains_iff}
use mathlib.Core.Path.{◌≡◌, sym, ◌∙◌}
use mathlib.Core.Logic.{◌↔◌, inl, inr}
use mathlib.Core.Bool.{false, false≢true}
use mathlib.Core.List.{List, [], ◌∷◌}
use native.Mathlib.Omega.{arith}

module _ {A : Type 0} where
  -- Keys that repeat neither one another nor one of `seen`.
  abbrev pub Fresh : List A → List A → Type 0
  Fresh seen xs = All (λ x. ¬ In x seen) xs × Distinct xs

  not_in_of_All : (x : A) (seen xs : List A) → All (λ y. ¬ In y (x ∷ seen)) xs → ¬ In x xs
  not_in_of_All x seen [] h = λ e. e
  not_in_of_All x seen (y ∷ xs) (new, h) =
      λ m. elim m [ inl e ↦ new (inl (sym e)) | inr later ↦ not_in_of_All x seen xs h later ]

  All-weaken :
      (x : A) (seen xs : List A) → All (λ y. ¬ In y (x ∷ seen)) xs → All (λ y. ¬ In y seen) xs
  All-weaken x seen [] h = tt
  All-weaken x seen (y ∷ xs) (new, h) = (λ m. new (inr m), All-weaken x seen xs h)

  All-strengthen :
      (x : A) (seen xs : List A)
      → ¬ In x xs
      → All (λ y. ¬ In y seen) xs
      → All (λ y. ¬ In y (x ∷ seen)) xs
  All-strengthen x seen [] new h = tt
  All-strengthen x seen (y ∷ xs) new (old, h) = (
    λ m. elim m [ inl e ↦ new (inl (sym e)) | inr m' ↦ old m' ],
    All-strengthen x seen xs (λ m. new (inr m)) h,
  )

  All-nothing : (xs : List A) → All (λ y. ¬ In y []) xs
  All-nothing [] = tt
  All-nothing (y ∷ xs) = (λ e. e, All-nothing xs)

  -- The first key is new, and the others are fresh once it is among the keys met.
  pub Fresh-cons_iff :
      (seen : List A) (x : A) (xs : List A)
      → Fresh seen (x ∷ xs) ↔ ((¬ In x seen) × Fresh (x ∷ seen) xs)
  Fresh-cons_iff seen x xs = (
    λ f. (f.0.0, (All-strengthen x seen xs f.1.0 f.0.1, f.1.1)),
    λ g. ((g.0, All-weaken x seen xs g.1.0), (not_in_of_All x seen xs g.1.0, g.1.1)),
  )

  pub Fresh-nil_iff : (xs : List A) → Fresh [] xs ↔ Distinct xs
  Fresh-nil_iff xs = (λ f. f.1, λ d. (All-nothing xs, d))

pub contains-eq-false_iff :
    {A : Type 0} ⦃e : Eq A⦄ (xs : List A) (a : A) → (contains xs a ≡ false) ↔ (¬ In a xs)
contains-eq-false_iff xs a =
    (λ h m. false≢true (sym h ∙ (contains_iff xs a).1 m), λ n. ground (arith, contains_iff xs a))
