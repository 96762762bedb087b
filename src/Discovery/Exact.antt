-- ===== src/Discovery/Exact.antt =====
-- What a valid page says of the resources that the request selected.
use mathlib.Core.Path.{subst}
use provider_sdk.Base.{
  >>-eq-ok, >>=-eq-ok, All, All-map, Distinct, Fresh, Fresh-cons_iff, Fresh-nil_iff, In,
  In-of_length, List, [], any, arith, contains, contains-eq-false_iff, contains_iff, elements,
  false, inl, inr, is_empty, length, list_eq, nat_eq, not, ok, ok_of, pass, refl, reject, some, sym,
  ◌!=◌, ◌+◌, ◌||◌, ◌↔◌, ◌∷◌, ◌≡◌, ◌⊎◌,
}
use provider_sdk.Selection.{selector_eq}
use provider_sdk.Text.{Text, discovery_text}
use provider_sdk.Discovery.Page.{
  DiscoveredResource, DiscoveryPage, check_answered, note_missing, note_resources,
}
use provider_sdk.Discovery.{
  DiscoveryRequest, check_discovery_ids, check_exact_mode, valid_discovery_ids,
}

abbrev pub ids_of : List DiscoveredResource → List Text
ids_of [] = []
ids_of (r ∷ rs) = r.id ∷ ids_of rs

-- The keys of `seen` after a loop that adds these.
abbrev onto : List Text → List Text → List Text
onto [] seen = seen
onto (x ∷ xs) seen = onto xs (x ∷ seen)

In-onto_iff : (a : Text) (xs seen : List Text) → In a (onto xs seen) ↔ (In a xs ⊎ In a seen)
In-onto_iff a [] seen = (λ m. inr m, λ m. elim m [ inl h ↦ absurd h | inr h ↦ h ])
In-onto_iff a (x ∷ xs) seen =
    let (to, from) = In-onto_iff a xs (x ∷ seen) in
    (
      λ m. elim (to m) [
        | inl later ↦ inl (inr later)
        | inr here ↦ elim here [ inl e ↦ inl (inl e) | inr old ↦ inr old ]
      ],
      λ m. elim m [
        | inl there ↦ elim there [ inl e ↦ from (inr (inl e)) | inr later ↦ from (inl later) ]
        | inr old ↦ from (inr (inr old))
      ],
    )

length-onto : (xs seen : List Text) → length (onto xs seen) ≡ length xs + length seen
length-onto [] seen = omega arith
length-onto (x ∷ xs) seen = omega (arith, length-onto xs (x ∷ seen))

note_missing-eq-ok :
    (seen ids after : List Text)
    → note_missing seen ids ≡ ok after
    → Fresh seen ids × (after ≡ onto ids seen)
unfolding note_missing
note_missing-eq-ok seen [] after h = ((tt, tt), ok_of (sym h))
note_missing-eq-ok seen (id ∷ ids) after h =
    let (clear, rest) =
      >>-eq-ok (reject (not (discovery_text id 2048) || contains seen id) _) _ h in
    let (fresh, e) = note_missing-eq-ok (id ∷ seen) ids after rest in
    let new = (contains-eq-false_iff seen id).0 (ground arith) in
    ((Fresh-cons_iff seen id ids).1 (new, fresh), e)

note_resources-eq-ok :
    (seen : List Text) (rs : List DiscoveredResource) (after : List Text)
    → note_resources seen rs ≡ ok after
    → Fresh seen (ids_of rs) × (after ≡ onto (ids_of rs) seen)
unfolding note_resources
note_resources-eq-ok seen [] after h = ((tt, tt), ok_of (sym h))
note_resources-eq-ok seen (r ∷ rs) after h =
    let (clear, rest) = >>-eq-ok (reject _ _) _ h in
    let (fresh, e) = note_resources-eq-ok (r.id ∷ seen) rs after rest in
    let new = (contains-eq-false_iff seen r.id).0 (ground arith) in
    ((Fresh-cons_iff seen r.id (ids_of rs)).1 (new, fresh), e)

check_discovery_ids-Fresh :
    (seen ids : List Text) → check_discovery_ids seen ids ≡ pass → Fresh seen ids
unfolding check_discovery_ids
check_discovery_ids-Fresh seen [] h = (tt, tt)
check_discovery_ids-Fresh seen (id ∷ ids) h =
    let (clear, rest) =
      >>-eq-ok (reject (not (discovery_text id 2048) || contains seen id) _) _ h in
    let fresh = check_discovery_ids-Fresh (id ∷ seen) ids rest in
    let new = (contains-eq-false_iff seen id).0 (ground arith) in
    (Fresh-cons_iff seen id ids).1 (new, fresh)

pub exact_mode-Distinct :
    (r : DiscoveryRequest) (ids : List Text) → check_exact_mode r (some ids) ≡ pass → Distinct ids
unfolding check_exact_mode valid_discovery_ids
exact_mode-Distinct r ids h =
    let (_, rest) = >>-eq-ok (reject _ _) _ h in
    (Fresh-nil_iff ids).0 (check_discovery_ids-Fresh [] ids rest)

-- Each selected resource is shown or declared missing, and not both; nothing else is shown or
-- declared missing, and nothing twice.
pub record IsExact (page : DiscoveryPage) (ids : List Text) : Type 0 where
  pub complete :
      (id : Text)
      → In id ids
      → In id (ids_of (elements page.resources)) ⊎ In id page.missing_resource_ids
  pub sound :
      (id : Text)
      → In id (ids_of (elements page.resources)) ⊎ In id page.missing_resource_ids
      → In id ids
  pub shown_once : Distinct (ids_of (elements page.resources))
  pub missing_once : Distinct page.missing_resource_ids
  pub apart : All (λ id. ¬ In id (ids_of (elements page.resources))) page.missing_resource_ids
  pub one_page : page.next_cursor ≡ []

all_contained :
    (seen ids : List Text)
    → any (λ id. not (contains seen id)) ids ≡ false
    → (id : Text) → In id ids
    → In id seen
all_contained seen (x ∷ ids) h id (inl e) = (contains_iff seen id).0 (rw (← e) (ground arith))
all_contained seen (x ∷ ids) h id (inr m) = all_contained seen ids (ground arith) id m
all_contained seen [] h id m = absurd m

-- The parts of an accepted answer to a request with `ResourceIDs`.
answered_parts :
    (p : DiscoveryPage) (ids seen : List Text)
    → check_answered p (some ids) seen ≡ pass
    → (after : List Text) × (p.next_cursor ≡ [])
      × (note_missing seen p.missing_resource_ids ≡ ok after)
      × (length after ≡ length ids)
      × (any (λ id. not (contains after id)) ids ≡ false)
unfolding check_answered
answered_parts p ids seen h =
    let (one, rest) = >>-eq-ok (reject (not (is_empty p.next_cursor)) _) _ h in
    let (after, noted, rest') = >>=-eq-ok (note_missing seen p.missing_resource_ids) _ rest in
    let (sized, covered) = >>-eq-ok (reject (length after != length ids) _) _ rest' in
    (after, empty_of p.next_cursor one, noted, ground (arith, sized), ground (arith, covered))
  where
    empty_of :
        (s : Text) → reject (not (is_empty s)) "exact revalidation cannot paginate" ≡ pass → s ≡ []
    empty_of [] e = refl
    empty_of (b ∷ s) e = cc e

split_after :
    (id : Text) (shown missing seen after : List Text)
    → seen ≡ onto shown []
    → after ≡ onto missing seen
    → In id after
    → In id shown ⊎ In id missing
split_after id shown missing seen after e e' m =
    elim ((In-onto_iff id missing seen).0 (subst (λ s. In id s) e' m)) [
      | inl there ↦ inr there
      | inr before ↦ elim ((In-onto_iff id shown []).0 (subst (λ s. In id s) e before)) [
        | inl there ↦ inl there
        | inr nowhere ↦ absurd nowhere
      ]
    ]

join_after :
    (id : Text) (shown missing seen after : List Text)
    → seen ≡ onto shown []
    → after ≡ onto missing seen
    → In id shown ⊎ In id missing
    → In id after
join_after id shown missing seen after e e' m =
    subst (λ s. In id s) (sym e')
      ((In-onto_iff id missing seen).1 (elim m [
        | inl there ↦ inr (subst (λ s. In id s) (sym e) ((In-onto_iff id shown []).1 (inl there)))
        | inr there ↦ inl there
      ]))

pub IsExact-of_parts :
    (p : DiscoveryPage) (ids seen : List Text)
    → Distinct ids
    → note_resources [] (elements p.resources) ≡ ok seen
    → check_answered p (some ids) seen ≡ pass
    → IsExact p ids
IsExact-of_parts p ids seen distinct noted answered =
    let shown = ids_of (elements p.resources) in
    let (fresh, e) = note_resources-eq-ok [] (elements p.resources) seen noted in
    let (after, one, noted', sized, covered) = answered_parts p ids seen answered in
    let (fresh', e') = note_missing-eq-ok seen p.missing_resource_ids after noted' in
    let contained = all_contained after ids covered in
    let split = λ (id : Text) (m : In id after).
      split_after id shown p.missing_resource_ids seen after e e' m in
    let join = λ (id : Text) (m : In id shown ⊎ In id p.missing_resource_ids).
      join_after id shown p.missing_resource_ids seen after e e' m in
    record {
      complete = λ id m. split id (contained id m);
      sound =
          λ id m. In-of_length ids after distinct contained (omega (arith, sized)) id (join id m);
      shown_once = (Fresh-nil_iff shown).0 fresh;
      missing_once = fresh'.1;
      apart =
          All-map
            (λ id new there.
              new (subst (λ s. In id s) (sym e) ((In-onto_iff id shown []).1 (inl there))))
            p.missing_resource_ids fresh'.0;
      one_page = one;
    }
