-- ===== src/Selection.antt =====
-- constraints.go and capability_selection.go: which resources and which capabilities a rule selects.
-- A nil slice is `none`; an empty one is `some []`.
pub mod Resources
pub mod Capabilities
use provider_sdk.Base.{
  Bool, Check, Eq, List, Option, [], any, arith, contains, elements, eq_iff, false, if◌then◌else◌,
  is_empty, is_ok, length, list_eq, ltb, nat_eq, none, not, pass, reject, some, true, ◌!=◌, ◌&&◌,
  ◌==◌, ◌>>=◌, ◌>>◌, ◌||◌, ◌↔◌, ◌∷◌, ◌≡◌,
}
use provider_sdk.Text.{Text, contains_any, has_prefix, is_blank, trim_space}
use provider_sdk.Text.Patterns.{authorization_digest_pattern, identity_pattern}

-- The loop of `ValidateResourceSelection`, with the keys of `seen`.
unfoldable pub check_resource_ids : List Text → List Text → Check
check_resource_ids seen [] = pass
check_resource_ids seen (id ∷ ids) = do
  reject
      (is_blank id || trim_space id != id || contains_any id (0 ∷ 13 ∷ 10 ∷ []) || contains seen id)
      "exact resource identity is empty, malformed or duplicated"
  check_resource_ids (id ∷ seen) ids

-- `ids != nil && (len(ids) == 0 || len(prefixes) != 0)`
abbrev pub mixes : List Text → Option (List Text) → Bool
mixes prefixes none = false
mixes prefixes (some ids) = is_empty ids || not (is_empty prefixes)

unfoldable pub validate_resource_selection : List Text → Option (List Text) → Check
unfolding check_resource_ids
validate_resource_selection prefixes ids = do
  reject (mixes prefixes ids) "exact resources must be nonempty and cannot be mixed with prefixes"
  check_resource_ids [] (elements ids)

abbrev pub select_resource : Text → List Text → Option (List Text) → Bool
select_resource resource prefixes (some ids) = contains ids resource
select_resource resource [] none = true
select_resource resource (p ∷ ps) none = any (has_prefix resource) (p ∷ ps)

unfoldable pub matches_resources : Text → List Text → Option (List Text) → Bool
unfolding validate_resource_selection
matches_resources resource prefixes ids =
    if is_ok (validate_resource_selection prefixes ids)
    then select_resource resource prefixes ids
    else false

pub record CapabilitySelector : Type 0 where
  pub ref : Text
  pub digest : Text

abbrev selector_beq : CapabilitySelector → CapabilitySelector → Bool
selector_beq a b = a.ref == b.ref && a.digest == b.digest

pub selector_beq_iff : (a b : CapabilitySelector) → (selector_beq a b ≡ true) ↔ (a ≡ b)
selector_beq_iff a b = ground (arith, eq_iff a.ref b.ref, eq_iff a.digest b.digest)

instance abbrev pub selector_eq : Eq CapabilitySelector
selector_eq = record { beq = selector_beq; beq_iff = selector_beq_iff }

-- `CapabilitySelector.Validate`
unfoldable pub validate_selector : CapabilitySelector → Check
validate_selector c =
    reject (not (identity_pattern c.ref) || not (authorization_digest_pattern c.digest))
      "capability reference and digest must identify an exact signed implementation"

-- The loop of `ValidateCapabilitySelection`, with the keys of `seen`.
unfoldable pub check_selectors : List Text → List CapabilitySelector → Check
unfolding validate_selector
check_selectors seen [] = pass
check_selectors seen (c ∷ cs) = do
  validate_selector c
  reject (contains seen c.ref) "capability reference is duplicated or ambiguous"
  check_selectors (c.ref ∷ seen) cs

-- `selected != nil && (len(selected) == 0 || len(selected) > 64)`
abbrev pub out_of_size : Option (List CapabilitySelector) → Bool
out_of_size none = false
out_of_size (some cs) = is_empty cs || ltb 64 (length cs)

unfoldable pub validate_capability_selection : Option (List CapabilitySelector) → Check
unfolding check_selectors
validate_capability_selection selected = do
  reject (out_of_size selected) "capability selection must contain between one and 64 identities"
  check_selectors [] (elements selected)

abbrev pub select_capability : CapabilitySelector → Option (List CapabilitySelector) → Bool
select_capability actual none = true
select_capability actual (some cs) =
    if is_ok (validate_selector actual) then contains cs actual else false

unfoldable pub matches_capabilities : CapabilitySelector → Option (List CapabilitySelector) → Bool
unfolding validate_capability_selection
matches_capabilities actual selected =
    if is_ok (validate_capability_selection selected)
    then select_capability actual selected
    else false
