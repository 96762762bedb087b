-- ===== src/Selection/Resources.antt =====
-- What an accepted selection of resources is, and what it selects.
use provider_sdk.Base.{
  All, Any, Bool, Bool-cases, Distinct, Fresh, Fresh-cons_iff, Fresh-nil_iff, In, List, Option, [],
  any, arith, contains_iff, eq_iff, false, gate_iff, inl, inr, list_eq, nat_eq, none, pass, refl,
  some, true, ◌||◌, ◌↔◌, ◌∷◌, ◌≡◌, ◌≢◌,
}
use provider_sdk.Text.{Text, contains_any, has_prefix, is_blank, trim_space}
use provider_sdk.Selection.{
  check_resource_ids, matches_resources, select_resource, selector_eq, validate_resource_selection,
}
use provider_sdk.Text.Laws.{HasPrefix, has_prefix_iff}

-- A resource identity that can be compared byte by byte: not blank, not padded, one line.
pub record IsIdentity (id : Text) : Type 0 where
  pub visible : is_blank id ≡ false
  pub unpadded : trim_space id ≡ id
  pub one_line : contains_any id (0 ∷ 13 ∷ 10 ∷ []) ≡ false

-- An accepted selection: nil, or a nonempty list of distinct identities and no prefix beside it.
abbrev pub IsSelection : List Text → Option (List Text) → Type 0
IsSelection prefixes none = Unit
IsSelection prefixes (some ids) = (ids ≢ []) × (prefixes ≡ []) × All IsIdentity ids × Distinct ids

check_resource_ids-cons_iff :
    (seen : List Text) (id : Text) (ids : List Text)
    → (check_resource_ids seen (id ∷ ids) ≡ pass)
      ↔ (IsIdentity id × (¬ In id seen) × (check_resource_ids (id ∷ seen) ids ≡ pass))
unfolding check_resource_ids
check_resource_ids-cons_iff seen id ids =
    ground (arith, eq_iff (trim_space id) id, contains_iff seen id)

check_resource_ids_iff :
    (seen ids : List Text)
    → (check_resource_ids seen ids ≡ pass) ↔ (All IsIdentity ids × Fresh seen ids)
check_resource_ids_iff seen [] = unfold check_resource_ids in ground arith
check_resource_ids_iff seen (id ∷ ids) = ground (
  arith,
  check_resource_ids-cons_iff seen id ids,
  check_resource_ids_iff (id ∷ seen) ids,
  Fresh-cons_iff seen id ids,
)

-- A selection of resources is accepted exactly if it is nil, or is a nonempty list of distinct
-- identities that are neither blank nor padded nor hold a NUL, CR or LF, with no prefix beside it.
pub validate_resource_selection_iff :
    (prefixes : List Text) (ids : Option (List Text))
    → (validate_resource_selection prefixes ids ≡ pass) ↔ IsSelection prefixes ids
unfolding validate_resource_selection
validate_resource_selection_iff prefixes none = (λ _. tt, λ _. refl)
validate_resource_selection_iff prefixes (some ids) =
    ground (arith, check_resource_ids_iff [] ids, Fresh-nil_iff ids)

-- What an accepted selection selects: without one, everything; prefixes select by prefix, and a
-- list of identities selects its members alone.
abbrev pub Selects : Text → List Text → Option (List Text) → Type 0
Selects resource prefixes (some ids) = In resource ids
Selects resource [] none = Unit
Selects resource (p ∷ ps) none = Any (HasPrefix resource) (p ∷ ps)

any-has_prefix_iff :
    (resource : Text) (ps : List Text)
    → (any (has_prefix resource) ps ≡ true) ↔ Any (HasPrefix resource) ps
any-has_prefix_iff resource [] = ground arith
any-has_prefix_iff resource (p ∷ ps) =
    let (to, from) = has_prefix_iff resource p in
    let (to_rest, from_rest) = any-has_prefix_iff resource ps in
    (
      λ h. elim (Bool-cases (has_prefix resource p)) [
        | inl e ↦ inl (to e)
        | inr e ↦ inr (to_rest (ground arith))
      ],
      λ h. elim h [
        | inl e ↦ rw (from e) refl
        | inr e ↦ or_true (has_prefix resource p) (from_rest e)
      ],
    )
  where
    or_true : (b : Bool) {c : Bool} → c ≡ true → (b || c) ≡ true
    or_true b h = ground arith

select_resource_iff :
    (resource : Text) (prefixes : List Text) (ids : Option (List Text))
    → (select_resource resource prefixes ids ≡ true) ↔ Selects resource prefixes ids
select_resource_iff resource prefixes (some ids) = contains_iff ids resource
select_resource_iff resource [] none = (λ _. tt, λ _. refl)
select_resource_iff resource (p ∷ ps) none = any-has_prefix_iff resource (p ∷ ps)

-- A resource matches exactly if the selection is an accepted one and selects it: by membership of
-- the exact identities, by one of the prefixes, or with neither given.
pub matches_resources_iff :
    (resource : Text) (prefixes : List Text) (ids : Option (List Text))
    → (matches_resources resource prefixes ids ≡ true)
      ↔ (IsSelection prefixes ids × Selects resource prefixes ids)
unfolding matches_resources
matches_resources_iff resource prefixes ids =
    gate_iff (validate_resource_selection prefixes ids) (select_resource resource prefixes ids)
      (validate_resource_selection_iff prefixes ids) (select_resource_iff resource prefixes ids)
