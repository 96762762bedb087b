-- ===== src/Outbound/Outcome.antt =====
-- What a result of outbound work says.
use provider_sdk.Base.{
  >>-eq-ok, Bool, In, Result, String, arith, contains, contains_iff, eq_iff, err, false, hang,
  if◌then◌else◌, inl, inr, is_empty, list_eq, nat_eq, not, ok, panic, pass, refl, reject, relabel,
  true, ◌!=◌, ◌>>=◌, ◌||◌, ◌≡◌, ◌⊎◌,
}
use provider_sdk.Base.{list_eq, nat_eq}
use provider_sdk.Json.{Value}
use provider_sdk.Outbound.{
  DispatchResult, outbound_phases, outbound_runtime_protocol, validate_result,
}
use provider_sdk.Platform.{Encoder, PlainJson, Sha256, json_digest}
use provider_sdk.Selection.{selector_eq}
use provider_sdk.Text.{Text, is_blank}
use provider_sdk.Text.Patterns.{authorization_digest_pattern}
use provider_sdk.Time.{is_zero_time}

-- Either a failure without any response, or a response under its own digest without a failure.
abbrev pub OneOutcome : ⦃h : Sha256⦄ ⦃p : PlainJson⦄ ⦃v : Encoder Value⦄ → DispatchResult → Type 0
OneOutcome r =
    ((is_blank r.failure_text ≡ false)
      × (is_empty r.response ≡ true)
      × (is_blank r.response_digest ≡ true))
    ⊎ ((is_blank r.failure_text ≡ true) × (json_digest r.response ≡ ok r.response_digest))

outcome_cases :
    (blank empty_response blank_digest : Bool) (digest : Result Text) (given : Text)
    (first second' : String)
    → (if not blank
        then reject (not empty_response || not blank_digest) first
        else (relabel digest second' >>= λ d. reject (d != given) second'))
      ≡ pass
    → ((blank ≡ false) × (empty_response ≡ true) × (blank_digest ≡ true))
      ⊎ ((blank ≡ true) × (digest ≡ ok given))
outcome_cases false empty_response blank_digest digest given first second' h = inl (ground arith)
outcome_cases true empty_response blank_digest (ok d) given first second' h =
    inr (refl, ground (arith, eq_iff d given))
outcome_cases true empty_response blank_digest (err message) given first second' h = cc h
outcome_cases true empty_response blank_digest panic given first second' h = cc h
outcome_cases true empty_response blank_digest hang given first second' h = cc h

well_formed :
    (a b c d e good late : Bool) (message : String)
    → reject (a || b || c || d || e || not good || late) message ≡ pass
    → good ≡ true
well_formed a b c d e good late message h = ground arith

not_rejected : (good : Bool) (message : String) → reject (not good) message ≡ pass → good ≡ true
not_rejected good message h = ground arith

-- A result that is accepted is for a known phase and a well-formed request digest, and has exactly
-- one outcome: a failure without a response, or a response under its own digest without a failure.
pub validate_result-OneOutcome :
    ⦃h : Sha256⦄ ⦃p : PlainJson⦄ ⦃v : Encoder Value⦄ (r : DispatchResult)
    → validate_result r ≡ pass
    → In r.phase outbound_phases
      × (authorization_digest_pattern r.request_digest ≡ true)
      × OneOutcome r
unfolding validate_result
validate_result-OneOutcome r e =
    let (identity, rest) = >>-eq-ok (reject _ "outbound dispatch result identity is invalid") _ e in
    let (phase, outcome) = >>-eq-ok (reject _ "outbound dispatch result phase is invalid") _ rest in
    (
      (contains_iff outbound_phases r.phase).0 (
          not_rejected (contains outbound_phases r.phase)
            "outbound dispatch result phase is invalid" phase),
      well_formed (r.protocol != outbound_runtime_protocol) (is_blank r.dispatch_id)
          (is_blank r.connection_id) (is_blank r.runtime_id) (is_blank r.claim_token)
          (authorization_digest_pattern r.request_digest) (is_zero_time r.completed_at)
          "outbound dispatch result identity is invalid" identity,
      outcome_cases (is_blank r.failure_text) (is_empty r.response) (is_blank r.response_digest)
          (json_digest r.response) r.response_digest
          "failed outbound dispatch cannot include a response"
          "outbound dispatch response digest does not match" outcome,
    )
