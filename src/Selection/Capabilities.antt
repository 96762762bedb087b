-- ===== src/Selection/Capabilities.antt =====
-- What an accepted selection of capabilities is, and what it selects.
use provider_sdk.Base.{
  All, Distinct, Fresh, Fresh-cons_iff, Fresh-nil_iff, In, List, Option, [], ap, arith,
  contains_iff, gate_iff, inl, inr, is_ok_iff, length, list_eq, nat_eq, none, pass, refl, some, sym,
  true, ◌↔◌, ◌∙◌, ◌∷◌, ◌≡◌, ◌≢◌, ◌≤◌,
}
use provider_sdk.Selection.{
  CapabilitySelector, check_selectors, matches_capabilities, select_capability, selector_eq,
  validate_capability_selection, validate_selector,
}
use provider_sdk.Text.Patterns.{authorization_digest_pattern, identity_pattern}
use provider_sdk.Text.{Text}

-- A reference and a digest of the exact signed form.
pub record IsExact (c : CapabilitySelector) : Type 0 where
  pub ref_fits : identity_pattern c.ref ≡ true
  pub digest_fits : authorization_digest_pattern c.digest ≡ true

abbrev pub refs : List CapabilitySelector → List Text
refs [] = []
refs (c ∷ cs) = c.ref ∷ refs cs

-- An accepted selection: nil, or up to 64 exact capabilities with distinct references.
abbrev pub IsCapabilitySelection : Option (List CapabilitySelector) → Type 0
IsCapabilitySelection none = Unit
IsCapabilitySelection (some cs) = (cs ≢ []) × (length cs ≤ 64) × All IsExact cs × Distinct (refs cs)

pub validate_selector_iff : (c : CapabilitySelector) → (validate_selector c ≡ pass) ↔ IsExact c
unfolding validate_selector
validate_selector_iff c = ground arith

check_selectors-cons_iff :
    (seen : List Text) (c : CapabilitySelector) (cs : List CapabilitySelector)
    → (check_selectors seen (c ∷ cs) ≡ pass)
      ↔ (IsExact c × (¬ In c.ref seen) × (check_selectors (c.ref ∷ seen) cs ≡ pass))
unfolding check_selectors
check_selectors-cons_iff seen c cs = ground (arith, contains_iff seen c.ref)

check_selectors_iff :
    (seen : List Text) (cs : List CapabilitySelector)
    → (check_selectors seen cs ≡ pass) ↔ (All IsExact cs × Fresh seen (refs cs))
check_selectors_iff seen [] = unfold check_selectors in ground arith
check_selectors_iff seen (c ∷ cs) = ground (
  arith,
  check_selectors-cons_iff seen c cs,
  check_selectors_iff (c.ref ∷ seen) cs,
  Fresh-cons_iff seen c.ref (refs cs),
)

-- A selection of capabilities is accepted exactly if it is nil, or has between one and 64 exact
-- capabilities of which no two share a reference.
pub validate_capability_selection_iff :
    (selected : Option (List CapabilitySelector))
    → (validate_capability_selection selected ≡ pass) ↔ IsCapabilitySelection selected
unfolding validate_capability_selection
validate_capability_selection_iff none = (λ _. tt, λ _. refl)
validate_capability_selection_iff (some cs) =
    ground (arith, check_selectors_iff [] cs, Fresh-nil_iff (refs cs))

-- What an accepted selection selects: nil selects any capability, and a list its members alone,
-- compared by both the reference and the digest.
abbrev pub SelectsCapability : CapabilitySelector → Option (List CapabilitySelector) → Type 0
SelectsCapability actual none = Unit
SelectsCapability actual (some cs) = IsExact actual × In actual cs

select_capability_iff :
    (actual : CapabilitySelector) (selected : Option (List CapabilitySelector))
    → (select_capability actual selected ≡ true) ↔ SelectsCapability actual selected
select_capability_iff actual none = (λ _. tt, λ _. refl)
select_capability_iff actual (some cs) = ground (
  arith,
  is_ok_iff (validate_selector actual),
  validate_selector_iff actual,
  contains_iff cs actual,
)

-- A capability matches exactly if the selection is an accepted one and selects it.
pub matches_capabilities_iff :
    (actual : CapabilitySelector) (selected : Option (List CapabilitySelector))
    → (matches_capabilities actual selected ≡ true)
      ↔ (IsCapabilitySelection selected × SelectsCapability actual selected)
unfolding matches_capabilities
matches_capabilities_iff actual selected =
    gate_iff (validate_capability_selection selected) (select_capability actual selected)
      (validate_capability_selection_iff selected) (select_capability_iff actual selected)

refs-In : (c : CapabilitySelector) (cs : List CapabilitySelector) → In c cs → In c.ref (refs cs)
refs-In c (d ∷ cs) (inl e) = inl (ap (λ x. x.ref) e)
refs-In c (d ∷ cs) (inr m) = inr (refs-In c cs m)
refs-In c [] m = absurd m

eq_of_refs :
    (a b : CapabilitySelector) (cs : List CapabilitySelector)
    → Distinct (refs cs)
    → In a cs
    → In b cs
    → a.ref ≡ b.ref
    → a ≡ b
eq_of_refs a b (c ∷ cs) d (inl ea) (inl eb) e = sym ea ∙ eb
eq_of_refs a b (c ∷ cs) (new, d) (inl ea) (inr mb) e =
    absurd (new (rw (ap (λ x. x.ref) ea ∙ e) (refs-In b cs mb)))
eq_of_refs a b (c ∷ cs) (new, d) (inr ma) (inl eb) e =
    absurd (new (rw (ap (λ x. x.ref) eb ∙ sym e) (refs-In a cs ma)))
eq_of_refs a b (c ∷ cs) (_, d) (inr ma) (inr mb) e = eq_of_refs a b cs d ma mb e
eq_of_refs a b [] d ma mb e = absurd ma

-- A reference names at most one implementation in an accepted selection: two capabilities that
-- match it and share a reference are the same.
pub matches_capabilities_unambiguous :
    (a b : CapabilitySelector) (cs : List CapabilitySelector)
    → matches_capabilities a (some cs) ≡ true
    → matches_capabilities b (some cs) ≡ true
    → a.ref ≡ b.ref
    → a ≡ b
matches_capabilities_unambiguous a b cs ha hb e =
    let (chosen, at) = (matches_capabilities_iff a (some cs)).0 ha in
    let (_, bs) = (matches_capabilities_iff b (some cs)).0 hb in
    eq_of_refs a b cs chosen.3 at.1 bs.1 e
