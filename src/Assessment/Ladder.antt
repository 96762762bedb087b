-- ===== src/Assessment/Ladder.antt =====
-- How strict the assessments are.
use provider_sdk.Base.{
  Bool, List, Option, [], any, ap, arith, contains, eq_iff, false, if◌then◌else◌, list_beq, list_eq,
  nat_eq, none, refl, some, sym, true, ℕ, ◌++◌, ◌==◌, ◌||◌, ◌∙◌, ◌∷◌, ◌≡◌, ◌≤◌,
}
use provider_sdk.Assessment.{
  Flags, Requirement, blocked, conclude, delegation, effect_flags, existing_checks, note_effect,
  note_effects, policy_delegated_changes, policy_read_only, policy_review_changes, resolution,
  review,
}
use provider_sdk.Capability.{ActionSemantics, consequential_effects, effect_unknown, effect_write}
use provider_sdk.Selection.{selector_eq}
use provider_sdk.Text.{Text}

-- The requirements in the order of what they demand.
abbrev pub rank : Requirement → ℕ
rank existing_checks = 0
rank delegation = 1
rank review = 2
rank resolution = 3
rank blocked = 4

abbrev is_unknown : Text → Bool
is_unknown effect = effect == effect_unknown

abbrev is_change : Text → Bool
is_change effect = effect == effect_write || contains consequential_effects effect

abbrev is_consequential : Text → Bool
is_consequential effect = contains consequential_effects effect

-- The flags of `g` are those of `f` and what the effects add.
record IsNoted (effects : List Text) (f g : Flags) : Type 0 where
  unknown : g.unknown ≡ (f.unknown || any is_unknown effects)
  changed : g.changed ≡ (f.changed || any is_change effects)
  consequential : g.consequential ≡ (f.consequential || any is_consequential effects)

-- One round, for three tests of which at most one passes.
abbrev noted_by : Bool → Bool → Bool → Flags → Flags
noted_by u w c f =
    if u
    then record f { unknown = true }
    else if w
    then record f { changed = true }
    else if c
    then record f { changed = true; consequential = true }
    else f

noted_by_fields :
    (u w c : Bool) (f : Flags)
    → (u ≡ true → (w ≡ false) × (c ≡ false))
    → (w ≡ true → c ≡ false)
    → ((noted_by u w c f).unknown ≡ (f.unknown || u))
      × ((noted_by u w c f).changed ≡ (f.changed || (w || c)))
      × ((noted_by u w c f).consequential ≡ (f.consequential || c))
noted_by_fields u w c f hu hw = ground arith

unknown_alone :
    (effect : Text)
    → is_unknown effect ≡ true
    → ((effect == effect_write) ≡ false) × (is_consequential effect ≡ false)
unfolding list_beq
unknown_alone effect h = rw ((eq_iff effect effect_unknown).0 h) (refl, refl)

write_alone : (effect : Text) → (effect == effect_write) ≡ true → is_consequential effect ≡ false
unfolding list_beq
write_alone effect h = rw ((eq_iff effect effect_write).0 h) refl

note_effect_fields :
    (effect : Text) (f : Flags)
    → ((note_effect effect f).unknown ≡ (f.unknown || is_unknown effect))
      × ((note_effect effect f).changed ≡ (f.changed || is_change effect))
      × ((note_effect effect f).consequential ≡ (f.consequential || is_consequential effect))
unfolding note_effect
note_effect_fields effect f =
    noted_by_fields (is_unknown effect) (effect == effect_write) (is_consequential effect) f
      (unknown_alone effect) (write_alone effect)

or_assoc : (a b c : Bool) → ((a || b) || c) ≡ (a || (b || c))
or_assoc a b c = ground arith

or_false : (a : Bool) → a ≡ (a || false)
or_false a = ground arith

unnoted :
    (effect : Text) (effects : List Text) (f : Flags)
    → IsNoted effects (note_effect effect f) (note_effects effects (note_effect effect f))
    → (note_effect effect f).unknown ≡ (f.unknown || is_unknown effect)
    → (note_effect effect f).changed ≡ (f.changed || is_change effect)
    → (note_effect effect f).consequential ≡ (f.consequential || is_consequential effect)
    → IsNoted (effect ∷ effects) f (note_effects (effect ∷ effects) f)
unnoted effect effects f n u c q =
    unfold note_effects in
    record {
      unknown =
          n.unknown
          ∙ ap (λ b. b || any is_unknown effects) u
          ∙ or_assoc f.unknown (is_unknown effect) (any is_unknown effects);
      changed =
          n.changed
          ∙ ap (λ b. b || any is_change effects) c
          ∙ or_assoc f.changed (is_change effect) (any is_change effects);
      consequential =
          n.consequential
          ∙ ap (λ b. b || any is_consequential effects) q
          ∙ or_assoc f.consequential (is_consequential effect) (any is_consequential effects);
    }

note_effects-IsNoted :
    (effects : List Text) (f : Flags) → IsNoted effects f (note_effects effects f)
note_effects-IsNoted [] f =
    unfold note_effects in
    record {
      unknown = or_false f.unknown;
      changed = or_false f.changed;
      consequential = or_false f.consequential;
    }
note_effects-IsNoted (effect ∷ effects) f =
    let n = note_effects-IsNoted effects (note_effect effect f) in
    let (u, c, q) = note_effect_fields effect f in unnoted effect effects f n u c q

-- The flags of a declaration, by what its effects hold.
effect_flags_fields :
    (s : ActionSemantics)
    → ((effect_flags (some s)).unknown ≡ any is_unknown s.effects)
      × ((effect_flags (some s)).changed ≡ any is_change s.effects)
      × ((effect_flags (some s)).consequential ≡ any is_consequential s.effects)
effect_flags_fields s =
    let n =
      note_effects-IsNoted s.effects
        (record { unknown = false; changed = false; consequential = false }) in
    unfold effect_flags in (n.unknown, n.changed, n.consequential)

-- `g` asks for no less than `f`.
record Covers (f g : Flags) : Type 0 where
  unknown : f.unknown ≡ true → g.unknown ≡ true
  changed : f.changed ≡ true → (g.changed || g.unknown) ≡ true
  consequential : f.consequential ≡ true → (g.consequential || g.unknown) ≡ true
  changes : f.consequential ≡ true → f.changed ≡ true

conclude_mono :
    (preset : Text) (f g : Flags)
    → Covers f g
    → rank (conclude preset f).0 ≤ rank (conclude preset g).0
unfolding conclude
conclude_mono preset f g c = ground arith

any-append : (p : Text → Bool) (xs ys : List Text) → any p (xs ++ ys) ≡ (any p xs || any p ys)
any-append p [] ys = refl
any-append p (x ∷ xs) ys = ground (arith, any-append p xs ys)

or_mono : (w c a b : Bool) → (c || a) ≡ true → (a ≡ true → b ≡ true) → ((w || c) || b) ≡ true
or_mono w c a b h k = ground arith

any_change_of : (xs : List Text) → any is_consequential xs ≡ true → any is_change xs ≡ true
any_change_of [] h = h
any_change_of (x ∷ xs) h =
    or_mono (x == effect_write) (is_consequential x) (any is_consequential xs) (any is_change xs) h
      (any_change_of xs)

or_left : (a b : Bool) → a ≡ true → (a || b) ≡ true
or_left a b h = ground arith

flags_grow :
    (f g : Flags) (u c q u' c' q' : Bool)
    → (f.unknown ≡ u) × (f.changed ≡ c) × (f.consequential ≡ q)
    → (g.unknown ≡ (u || u')) × (g.changed ≡ (c || c')) × (g.consequential ≡ (q || q'))
    → (q ≡ true → c ≡ true)
    → Covers f g
flags_grow f g u c q u' c' q' (fu, fc, fq) (gu, gc, gq) h = record {
  unknown = ground arith;
  changed = ground arith;
  consequential = ground arith;
  changes = ground arith;
}

flags-append :
    (protocol : Text) (effects others : List Text)
    → Covers
        (effect_flags (some (record { protocol = protocol; effects = effects })))
        (effect_flags (some (record { protocol = protocol; effects = effects ++ others })))
flags-append protocol effects others =
    let (u, c, q) =
      effect_flags_fields (record { protocol = protocol; effects = effects ++ others }) in
    flags_grow (effect_flags (some (record { protocol = protocol; effects = effects })))
      (effect_flags (some (record { protocol = protocol; effects = effects ++ others })))
      (any is_unknown effects) (any is_change effects) (any is_consequential effects)
      (any is_unknown others) (any is_change others) (any is_consequential others)
      (effect_flags_fields (record { protocol = protocol; effects = effects }))
      (
        u ∙ any-append is_unknown effects others,
        c ∙ any-append is_change effects others,
        q ∙ any-append is_consequential effects others,
      )
      (any_change_of effects)

flags-none : (s : ActionSemantics) → Covers (effect_flags (some s)) (effect_flags none)
flags-none s =
    let (u, c, q) = effect_flags_fields s in
    record {
      unknown = λ h. unfold effect_flags in refl;
      changed = λ h. unfold effect_flags in refl;
      consequential = λ h. unfold effect_flags in refl;
      changes = λ h. c ∙ any_change_of s.effects (sym q ∙ h);
    }

-- What a policy demands of a declaration.
abbrev pub demand : Text → Option ActionSemantics → ℕ
demand preset semantics = rank (conclude preset (effect_flags semantics)).0

-- Declaring more effects never lowers what a policy demands, and declaring none at all is never
-- cheaper than any declaration: no capability gains by leaving effects out of the sight of the
-- policy's ladder, whatever the preset.
pub demand_mono :
    (preset protocol : Text) (effects others : List Text)
    → (demand preset (some (record { protocol = protocol; effects = effects }))
        ≤ demand preset (some (record { protocol = protocol; effects = effects ++ others })))
      × (demand preset (some (record { protocol = protocol; effects = effects }))
          ≤ demand preset none)
demand_mono preset protocol effects others = (
  conclude_mono preset _ _ (flags-append protocol effects others),
  conclude_mono preset _ _ (flags-none (record { protocol = protocol; effects = effects })),
)

-- Under the same declaration, reading only demands at least what reviewing changes demands, and
-- reviewing changes at least what delegating them does.
pub demand_presets :
    (semantics : Option ActionSemantics)
    → (demand policy_delegated_changes semantics ≤ demand policy_review_changes semantics)
      × (demand policy_review_changes semantics ≤ demand policy_read_only semantics)
demand_presets semantics = presets_mono (effect_flags semantics)
  where
    presets_mono :
        (f : Flags)
        → (rank (conclude policy_delegated_changes f).0 ≤ rank (conclude policy_review_changes f).0)
          × (rank (conclude policy_review_changes f).0 ≤ rank (conclude policy_read_only f).0)
    presets_mono f = unfold conclude list_beq in (ground arith, ground arith)
