-- ===== src/Text/Laws.antt =====
-- What the tests on texts decide.
use provider_sdk.Base.{[], arith, eq_iff, list_eq, nat_eq, refl, true, ◌++◌, ◌↔◌, ◌∷◌, ◌≡◌}
use provider_sdk.Text.{Text, has_prefix}

abbrev pub HasPrefix : Text → Text → Type 0
HasPrefix s p = (rest : Text) × (s ≡ p ++ rest)

pub has_prefix_iff : (s p : Text) → (has_prefix s p ≡ true) ↔ HasPrefix s p
unfolding has_prefix
has_prefix_iff s [] = (λ _. (s, refl), λ _. refl)
has_prefix_iff [] (b ∷ p) = (λ h. absurd (cc h), λ h. absurd (cc (h.1)))
has_prefix_iff (c ∷ s) (b ∷ p) = (
  λ h. let (rest, e) = (has_prefix_iff s p).0 (ground arith) in (rest, ground (arith, eq_iff c b)),
  λ h. ground (arith, eq_iff c b, (has_prefix_iff s p).1 (h.0, ground arith)),
)
