-- ===== src/Http/Retention.antt =====
-- The three minutes for which a nonce is remembered, against the two minutes on either side of the
-- clock for which its signature is good.

use provider_sdk.Http.{
  Clock, Handler, Hmac, HttpRequest, Rfc3339, Seen, admits, authenticate, authenticate_body, forget,
  remember,
}
use provider_sdk.Base.{
  All-map, List, Option, Option-cases, [], ap, arith, contains, false, inl, inr, is_present, keys,
  list_eq, nat_eq, none, some, sym, true, ℕ, ◌*◌, ◌+◌, ◌<◌, ◌∙◌, ◌∷◌, ◌≡◌, ◌≤◌, ◌⊎◌,
}
use provider_sdk.Time.{minute}
use provider_sdk.Http.Replay.{NoLaterThan, authenticate_all, authenticate_once}
use provider_sdk.Http.Window.{admits_iff, authenticate-IsAuthentic, verify_signature_iff}
use provider_sdk.Selection.{selector_eq}
use provider_sdk.Text.{Text}
use provider_sdk.Limits.{fits}

ltb-cases : (a b : ℕ) → (a < b) ⊎ (b ≤ a)
ltb-cases a b = ground arith

some_of : {a b : ℕ} → some a ≡ some b → a ≡ b
some_of e = cc

module _ ⦃m : Hmac⦄ ⦃p : Rfc3339⦄ (h : Handler) where
  -- A request whose timestamp is two minutes behind the clock is refused, whatever is remembered.
  stale_refused :
      (r : HttpRequest) (c : Clock) (seen : Seen) (parsed : ℕ)
      → p.parse r.timestamp ≡ some parsed
      → parsed + 2 * minute < c.checked_at
      → (authenticate h r c seen).0 ≡ none
  stale_refused r c seen parsed e late = elim (Option-cases (authenticate h r c seen).0) [
    | inl refused ↦ refused
    | inr ((body, nonce), accepted) ↦
        let (u, e', low, _) = (authenticate-IsAuthentic h r c seen body nonce accepted).0.timely in
        let same : parsed ≡ u = some_of (sym e ∙ e') in absurd (omega arith)
  ]

-- If the timestamp of an accepted request was no more than a minute, less a slack, ahead of the time
-- that was recorded, then a request with the same timestamp and nonce is refused at every later
-- time, whatever attempts lie between, provided that none of these forgets nonces at a later reading
-- of the clock than the refused one does, and that this reading of the refused one, after its wait for
-- the mutex, is at most the slack after the reading at which its signature was checked.
pub authenticate_never_again :
    ⦃m : Hmac⦄ ⦃p : Rfc3339⦄ (h : Handler) (r : HttpRequest) (c : Clock) (seen : Seen)
    → is_present (authenticate h r c seen).0 ≡ true
    → (parsed slack : ℕ) → p.parse r.timestamp ≡ some parsed
    → parsed + slack ≤ c.recorded_at + minute
    → (r' : HttpRequest) (c' : Clock) → r'.nonce ≡ r.nonce
    → r'.timestamp ≡ r.timestamp
    → c'.cut_at ≤ c'.checked_at + slack
    → (attempts : List (HttpRequest × Clock)) → NoLaterThan h c'.cut_at attempts
    → (authenticate h r' c' (authenticate_all h attempts (authenticate h r c seen).1)).0 ≡ none
authenticate_never_again ⦃p = p⦄ h r c seen e parsed slack at ahead r' c' same same' quick attempts
      les =
    let after = authenticate_all h attempts (authenticate h r c seen).1 in
    let at' : p.parse r'.timestamp ≡ some parsed = ap p.parse same' ∙ at in
    elim (ltb-cases (c.recorded_at + 3 * minute) c'.cut_at) [
      | inl late ↦ stale_refused h r' c' after parsed at' (omega arith)
      | inr soon ↦
          authenticate_once h r c seen e attempts (All-map (λ a le. omega arith) attempts les) r' c'
            same soon
    ]

pub forget_absent :
    (now : ℕ) (seen : Seen) (n : Text)
    → contains (keys seen) n ≡ false
    → contains (keys (forget now seen)) n ≡ false
unfolding forget
forget_absent now [] n h = h
forget_absent now ((value, stamp) ∷ seen) n h = ground (arith, forget_absent now seen n)

remember_again :
    (body nonce : Text) (c c' : Clock) (seen : Seen)
    → is_present (remember body nonce c seen).0 ≡ true
    → c.recorded_at + 3 * minute < c'.cut_at
    → is_present (remember body nonce c' (remember body nonce c seen).1).0 ≡ true
unfolding remember forget
remember_again body nonce c c' seen h late =
    ground (arith, forget_absent c'.cut_at (forget c.cut_at seen) nonce)

module _ ⦃m : Hmac⦄ ⦃p : Rfc3339⦄ (h : Handler) (r : HttpRequest) (c c' : Clock) (seen : Seen) where
  body_again :
      (o : Option Text)
      → is_present (authenticate_body h r o c seen).0 ≡ true
      → ((body : Text) → admits h r body c.checked_at ≡ true → admits h r body c'.checked_at ≡ true)
      → c.recorded_at + 3 * minute < c'.cut_at
      → is_present (authenticate_body h r o c' (authenticate_body h r o c seen).1).0 ≡ true
  unfolding authenticate_body
  body_again none e still late = cc
  body_again (some body) e still late =
      ground (arith, still body, remember_again body r.nonce c c' seen)

  -- The test before the mutex depends on the clock through the timestamp alone.
  admits_again :
      (body : Text) (parsed : ℕ)
      → p.parse r.timestamp ≡ some parsed
      → c'.checked_at ≤ parsed + 2 * minute
      → parsed ≤ c'.checked_at + 2 * minute
      → admits h r body c.checked_at ≡ true
      → admits h r body c'.checked_at ≡ true
  admits_again body parsed at low high e =
      let (fits, release, manifest, verified) = (admits_iff h r c seen body c.checked_at).0 e in
      let iff = verify_signature_iff h.shared_secret r.timestamp r.nonce r.given body in
      let (_, filled, seal) = (iff c.checked_at).0 verified in
      (admits_iff h r c seen body c'.checked_at).1
        (fits, release, manifest, (iff c'.checked_at).1 ((parsed, at, low, high), filled, seal))

-- The retention is too short for the window: the same request is accepted a second time when its
-- timestamp is still good once more than three minutes have gone by since the first acceptance was
-- recorded.
pub authenticate_readmits :
    ⦃m : Hmac⦄ ⦃p : Rfc3339⦄ (h : Handler) (r : HttpRequest) (c c' : Clock) (seen : Seen)
    → is_present (authenticate h r c seen).0 ≡ true
    → (parsed : ℕ) → p.parse r.timestamp ≡ some parsed
    → c'.checked_at ≤ parsed + 2 * minute
    → parsed ≤ c'.checked_at + 2 * minute
    → c.recorded_at + 3 * minute < c'.cut_at
    → is_present (authenticate h r c' (authenticate h r c seen).1).0 ≡ true
unfolding authenticate
authenticate_readmits h r c c' seen e parsed at low high late =
    body_again h r c c' seen r.body e (λ body. admits_again h r c c' seen body parsed at low high)
      late
