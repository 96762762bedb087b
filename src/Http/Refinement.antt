-- ===== src/Http/Refinement.antt =====
-- The remembered nonces against a log that forgets nothing.
use mathlib.Core.Path.{ap₂}
use provider_sdk.Base.{
  Bool, Bool-cases, List, Option, [], ap, arith, contains, false, if◌then◌else◌, inl, inr, keys,
  list_eq, nat_eq, none, not, refl, some, ℕ, ◌&&◌, ◌*◌, ◌+◌, ◌==◌, ◌||◌, ◌∙◌, ◌∷◌, ◌≡◌, ◌≤◌,
}
use provider_sdk.Http.{
  Clock, Handler, Hmac, HttpRequest, Rfc3339, Seen, admits, authenticate, authenticate_body, forget,
  remember,
}
use provider_sdk.Selection.{selector_eq}
use provider_sdk.Text.{Text, is_blank}
use provider_sdk.Time.{is_before, minute}
use provider_sdk.Http.Window.{admits_iff, verify_signature_iff}

-- Each acceptance with its nonce and the time that was recorded for it, the latest first.
abbrev pub Log : Type 0
Log = List (Text × ℕ)

-- The nonce was accepted, no earlier than three minutes before `now`.
abbrev pub recent : Text → ℕ → Log → Bool
recent n now [] = false
recent n now ((value, stamp) ∷ log) =
    (value == n && not (is_before (stamp + 3 * minute) now)) || recent n now log

-- The attempts are in the order in which the mutex lets them read the clock.
abbrev pub Ordered : ℕ → List (HttpRequest × Clock) → Type 0
Ordered t [] = Unit
Ordered t ((r, c) ∷ attempts) = (t ≤ c.cut_at) × Ordered c.cut_at attempts

forget-forget :
    (cut now : ℕ) (seen : Seen) → cut ≤ now → forget now (forget cut seen) ≡ forget now seen
unfolding forget
forget-forget cut now [] le = refl
forget-forget cut now ((value, stamp) ∷ seen) le = ground (arith, forget-forget cut now seen)

-- From `t` on, the nonces that are kept are those that the log calls recent.
abbrev Agrees : ℕ → Seen → Log → Type 0
Agrees t seen log =
    (n : Text) (now : ℕ) → t ≤ now → contains (keys (forget now seen)) n ≡ recent n now log

Agrees-forget :
    (t cut : ℕ) (seen : Seen) (log : Log)
    → t ≤ cut
    → Agrees t seen log
    → Agrees cut (forget cut seen) log
Agrees-forget t cut seen log le agrees n now later =
    ap (λ (s : Seen). contains (keys s) n) (forget-forget cut now seen later)
    ∙ agrees n now (omega arith)

Agrees-add :
    (t stamp : ℕ) (nonce : Text) (kept : Seen) (log : Log)
    → Agrees t kept log
    → Agrees t ((nonce, stamp) ∷ kept) ((nonce, stamp) ∷ log)
unfolding forget
Agrees-add t stamp nonce kept log agrees n now later = ground (arith, agrees n now later)

Agrees-later : (t u : ℕ) (seen : Seen) (log : Log) → t ≤ u → Agrees t seen log → Agrees u seen log
Agrees-later t u seen log le agrees n now later = agrees n now (omega arith)

module _ ⦃m : Hmac⦄ ⦃p : Rfc3339⦄ (h : Handler) where
  -- An authentic request is accepted unless its nonce was accepted in the last three minutes.
  unfoldable pub log_body : HttpRequest → Option Text → Clock → Log → Option (Text × Text) × Log
  log_body r none c log = (none, log)
  log_body r (some body) c log =
      if admits h r body c.checked_at && not (recent r.nonce c.cut_at log)
      then (some (body, r.nonce), (r.nonce, c.recorded_at) ∷ log)
      else (none, log)

  -- What is accepted of the attempts, by the handler and by the log.
  unfoldable pub accepted_all : List (HttpRequest × Clock) → Seen → List (Option (Text × Text))
  unfolding authenticate
  accepted_all [] seen = []
  accepted_all ((r, c) ∷ attempts) seen =
      let (accepted, seen') = authenticate h r c seen in accepted ∷ accepted_all attempts seen'

  unfoldable pub logged_all : List (HttpRequest × Clock) → Log → List (Option (Text × Text))
  unfolding log_body
  logged_all [] log = []
  logged_all ((r, c) ∷ attempts) log =
      let (accepted, log') = log_body r r.body c log in accepted ∷ logged_all attempts log'

  -- One authentication answers as the log does and keeps the agreement.
  abbrev Follows : ℕ → Option (Text × Text) × Seen → Option (Text × Text) × Log → Type 0
  Follows t (given, seen) (wanted, log) = (given ≡ wanted) × Agrees t seen log

  module _ (r : HttpRequest) (c : Clock) (seen : Seen) (log : Log) (t : ℕ) where
    remember-Follows :
        (body : Text)
        → t ≤ c.cut_at
        → Agrees t seen log
        → is_blank r.nonce ≡ false
        → Follows c.cut_at (remember body r.nonce c seen) (
            if not (recent r.nonce c.cut_at log)
            then (some (body, r.nonce), (r.nonce, c.recorded_at) ∷ log)
            else (none, log))
    unfolding remember
    remember-Follows body le agrees filled =
        let kept = Agrees-forget t c.cut_at seen log le agrees in
        let same : contains (keys (forget c.cut_at seen)) r.nonce ≡ recent r.nonce c.cut_at log =
          agrees r.nonce c.cut_at le in
        elim (Bool-cases (recent r.nonce c.cut_at log)) [
          | inl met ↦ rw (same, met) (refl, kept)
          | inr new ↦
              rw (same, new, filled)
                (refl, Agrees-add c.cut_at c.recorded_at r.nonce (forget c.cut_at seen) log kept)
        ]

    authenticate_body-Follows :
        (o : Option Text)
        → t ≤ c.cut_at
        → Agrees t seen log
        → Follows c.cut_at (authenticate_body h r o c seen) (log_body r o c log)
    unfolding authenticate_body log_body
    authenticate_body-Follows none le agrees = (refl, Agrees-later t c.cut_at seen log le agrees)
    authenticate_body-Follows (some body) le agrees =
        elim (Bool-cases (admits h r body c.checked_at)) [
          | inl good ↦
              let (_, _, _, verified) = (admits_iff h r c seen body c.checked_at).0 good in
              let (_, filled, _) =
                (verify_signature_iff h.shared_secret r.timestamp r.nonce r.given body
                    c.checked_at).0
                  verified in
              rw good (remember-Follows body le agrees filled)
          | inr bad ↦ rw bad (refl, Agrees-later t c.cut_at seen log le agrees)
        ]

  authenticate-Follows :
      (r : HttpRequest) (c : Clock) (seen : Seen) (log : Log) (t : ℕ)
      → t ≤ c.cut_at
      → Agrees t seen log
      → Follows c.cut_at (authenticate h r c seen) (log_body r r.body c log)
  unfolding authenticate
  authenticate-Follows r c seen log t le agrees =
      authenticate_body-Follows r c seen log t r.body le agrees

  all_follow :
      (attempts : List (HttpRequest × Clock)) (t : ℕ) (seen : Seen) (log : Log)
      → Ordered t attempts
      → Agrees t seen log
      → accepted_all attempts seen ≡ logged_all attempts log
  unfolding accepted_all logged_all
  all_follow [] t seen log ordered agrees = refl
  all_follow ((r, c) ∷ attempts) t seen log (le, ordered) agrees =
      let (same, agrees') = authenticate-Follows r c seen log t le agrees in
      ap₂ (λ a rest. a ∷ rest) same
        (all_follow attempts c.cut_at (authenticate h r c seen).1 (log_body r r.body c log).1
          ordered agrees')

-- Requests whose clock does not go back from one hold of the mutex to the next are answered as by a
-- handler that forgets nothing: a request is accepted exactly if it passes the tests before the mutex and
-- no request with its nonce was accepted in the last three minutes. Forgetting nonces, and testing them
-- again for blanks, changes no answer.
pub accepted-logged :
    ⦃m : Hmac⦄ ⦃p : Rfc3339⦄ (h : Handler) (attempts : List (HttpRequest × Clock))
    → Ordered 0 attempts
    → accepted_all h attempts [] ≡ logged_all h attempts []
unfolding forget
accepted-logged h attempts ordered = all_follow h attempts 0 [] [] ordered nothing
  where
    nothing : Agrees 0 [] []
    nothing n now le = refl
