-- ===== src/Http/Replay.antt =====
-- What the remembered nonces keep out, and for how long.
use mathlib.Core.Path.{subst}
use provider_sdk.Http.{
  Clock, Handler, Hmac, HttpRequest, Rfc3339, Seen, authenticate, authenticate_body, forget,
  remember,
}
use provider_sdk.Base.{
  All, List, Option, [], arith, contains, eq_iff, is_present, keys, list_eq, lookup, nat_eq, none,
  refl, some, sym, true, ℕ, ◌*◌, ◌+◌, ◌∷◌, ◌≡◌, ◌≤◌,
}
use provider_sdk.Selection.{selector_eq}
use provider_sdk.Text.{Text}
use provider_sdk.Time.{minute}

-- A nonce that was met less than three minutes before the cut survives it.
forget_keeps :
    (n : Text) (t now : ℕ) (seen : Seen)
    → lookup n seen ≡ some t
    → now ≤ t + 3 * minute
    → lookup n (forget now seen) ≡ some t
unfolding forget
forget_keeps n t now [] h le = h
forget_keeps n t now ((value, stamp) ∷ seen) h le = ground (arith, forget_keeps n t now seen)

contains_of_lookup :
    (n : Text) (t : ℕ) (seen : Seen) → lookup n seen ≡ some t → contains (keys seen) n ≡ true
contains_of_lookup n t [] h = cc
contains_of_lookup n t ((value, stamp) ∷ seen) h = ground (arith, contains_of_lookup n t seen)

module _ (body nonce : Text) (c : Clock) (seen : Seen) where
  remember_adds :
      is_present (remember body nonce c seen).0 ≡ true
      → lookup nonce (remember body nonce c seen).1 ≡ some c.recorded_at
  unfolding remember
  remember_adds h = ground (arith, eq_iff nonce nonce)

  remember_keeps :
      (n : Text) (t : ℕ)
      → lookup n seen ≡ some t
      → c.cut_at ≤ t + 3 * minute
      → lookup n (remember body nonce c seen).1 ≡ some t
  unfolding remember
  remember_keeps n t h le =
      let kept = forget_keeps n t c.cut_at seen h le in
      let there = contains_of_lookup n t (forget c.cut_at seen) kept in
      ground (arith, eq_iff nonce n)

  remember_refuses :
      (t : ℕ)
      → lookup nonce seen ≡ some t
      → c.cut_at ≤ t + 3 * minute
      → (remember body nonce c seen).0 ≡ none
  unfolding remember
  remember_refuses t h le =
      let kept = forget_keeps nonce t c.cut_at seen h le in
      let there = contains_of_lookup nonce t (forget c.cut_at seen) kept in ground arith

module _ ⦃m : Hmac⦄ ⦃p : Rfc3339⦄ (h : Handler) where
  module _ (r : HttpRequest) (c : Clock) (seen : Seen) where
    authenticate_body_adds :
        (body : Option Text)
        → is_present (authenticate_body h r body c seen).0 ≡ true
        → lookup r.nonce (authenticate_body h r body c seen).1 ≡ some c.recorded_at
    unfolding authenticate_body
    authenticate_body_adds none e = cc
    authenticate_body_adds (some body) e = ground (arith, remember_adds body r.nonce c seen)

    authenticate_body_keeps :
        (body : Option Text) (n : Text) (t : ℕ)
        → lookup n seen ≡ some t
        → c.cut_at ≤ t + 3 * minute
        → lookup n (authenticate_body h r body c seen).1 ≡ some t
    unfolding authenticate_body
    authenticate_body_keeps none n t e le = e
    authenticate_body_keeps (some body) n t e le =
        ground (arith, remember_keeps body r.nonce c seen n t)

    authenticate_body_refuses :
        (body : Option Text) (t : ℕ)
        → lookup r.nonce seen ≡ some t
        → c.cut_at ≤ t + 3 * minute
        → (authenticate_body h r body c seen).0 ≡ none
    unfolding authenticate_body
    authenticate_body_refuses none t e le = refl
    authenticate_body_refuses (some body) t e le =
        ground (arith, remember_refuses body r.nonce c seen t)

  -- Authentications one after the other, in the order in which they take the mutex.
  unfoldable pub authenticate_all : List (HttpRequest × Clock) → Seen → Seen
  unfolding authenticate
  authenticate_all [] seen = seen
  authenticate_all ((r, c) ∷ attempts) seen = authenticate_all attempts (authenticate h r c seen).1

  -- No attempt reads a time later than `limit` when it forgets nonces.
  abbrev pub NoLaterThan : ℕ → List (HttpRequest × Clock) → Type 0
  NoLaterThan limit attempts = All (λ a. a.1.cut_at ≤ limit) attempts

  authenticate_all_keeps :
      (attempts : List (HttpRequest × Clock)) (seen : Seen) (n : Text) (t : ℕ)
      → lookup n seen ≡ some t
      → NoLaterThan (t + 3 * minute) attempts
      → lookup n (authenticate_all attempts seen) ≡ some t
  unfolding authenticate_all
  authenticate_all_keeps [] seen n t e le = e
  authenticate_all_keeps ((r, c) ∷ attempts) seen n t e (le, les) =
      authenticate_all_keeps attempts (authenticate h r c seen).1 n t
        (unfold authenticate in authenticate_body_keeps r c seen r.body n t e le) les

-- Once a request was accepted, every request with its nonce is refused, whatever attempts lie
-- between the two, as long as no clock read since then is more than three minutes after the first
-- acceptance was recorded.
pub authenticate_once :
    ⦃m : Hmac⦄ ⦃p : Rfc3339⦄ (h : Handler) (r : HttpRequest) (c : Clock) (seen : Seen)
    → is_present (authenticate h r c seen).0 ≡ true
    → (attempts : List (HttpRequest × Clock)) → NoLaterThan h (c.recorded_at + 3 * minute) attempts
    → (r' : HttpRequest) (c' : Clock) → r'.nonce ≡ r.nonce
    → c'.cut_at ≤ c.recorded_at + 3 * minute
    → (authenticate h r' c' (authenticate_all h attempts (authenticate h r c seen).1)).0 ≡ none
unfolding authenticate
authenticate_once h r c seen e attempts les r' c' same le =
    let added = authenticate_body_adds h r c seen r.body e in
    let after = authenticate_all h attempts (authenticate h r c seen).1 in
    let kept =
      authenticate_all_keeps h attempts (authenticate h r c seen).1 r.nonce c.recorded_at added
        les in
    authenticate_body_refuses h r' c' after r'.body c.recorded_at
      (subst (λ n. lookup n after ≡ some c.recorded_at) (sym same) kept) le
