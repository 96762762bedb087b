-- ===== src/Manifest/Transport.antt =====
-- How a valid broker is reached.
use provider_sdk.Manifest.Entries.{
  check_runtime_artifacts-pass, is_empty-eq-false, is_empty-eq-true, not_false, references,
}
use provider_sdk.Base.{
  >>-eq-ok, All, Bool, Check, Distinct, Fresh-nil_iff, String, [], ap, arith, eq_iff, err, false,
  if◌then◌else◌, inl, inr, is_empty, list_beq, list_eq, nat_eq, not, pass, refl, reject, true, ◌!=◌,
  ◌&&◌, ◌==◌, ◌||◌, ◌∙◌, ◌≡◌, ◌≢◌, ◌⊎◌,
}
use provider_sdk.Manifest.{
  Broker, UrlParser, check_broker, check_inbound, check_outbound, inbound_https, is_plain_https,
  outbound_pull, transport_mode,
}
use provider_sdk.Selection.{selector_eq}
use provider_sdk.Text.{Text, is_blank}
use provider_sdk.Text.Patterns.{digest_pattern}

-- A broker is reached at a plain https endpoint, or pulls work by one of its signed artifacts and has no
-- endpoint; it verifies connections only if it pulls.
pub record IsReached ⦃urls : UrlParser⦄ (b : Broker) : Type 0 where
  pub reached :
      ((transport_mode b ≡ inbound_https)
        × (is_plain_https (urls.parse b.endpoint) ≡ true)
        × (b.runtime_artifacts ≡ [])
        × (b.connection_verification ≡ []))
      ⊎ ((transport_mode b ≡ outbound_pull)
          × (is_blank b.endpoint ≡ true)
          × (b.runtime_artifacts ≢ [])
          × All (λ a. digest_pattern a.digest ≡ true) b.runtime_artifacts
          × Distinct (references b.runtime_artifacts))

inbound_not_outbound : (inbound_https != outbound_pull) ≡ true
unfolding list_beq
inbound_not_outbound = refl

-- Only a broker that pulls may verify connections.
unverified :
    (b : Broker) (message : String)
    → transport_mode b ≡ inbound_https
    → reject (not (is_empty b.connection_verification) && transport_mode b != outbound_pull) message
      ≡ pass
    → b.connection_verification ≡ []
unverified b message mode k = is_empty-eq-true b.connection_verification (
    without (is_empty b.connection_verification) (transport_mode b != outbound_pull) k
      (ap (λ (t : Text). t != outbound_pull) mode ∙ inbound_not_outbound))
  where
    without : (e d : Bool) → reject (not e && d) message ≡ pass → d ≡ true → e ≡ true
    without e d h g = ground arith

modes :
    (inbound outbound : Bool) (x y : Check) (message : String)
    → (if inbound then x else if outbound then y else err message) ≡ pass
    → ((inbound ≡ true) × (x ≡ pass)) ⊎ ((outbound ≡ true) × (y ≡ pass))
modes true outbound x y message h = inl (refl, h)
modes false true x y message h = inr (refl, h)
modes false false x y message h = absurd (cc h)

module _ ⦃urls : UrlParser⦄ where
  check_inbound-parts :
      (b : Broker)
      → check_inbound b ≡ pass
      → (is_plain_https (urls.parse b.endpoint) ≡ true) × (b.runtime_artifacts ≡ [])
  unfolding check_inbound
  check_inbound-parts b h =
      let unsafe : String =
        "inbound broker endpoint must be an absolute https URL without credentials, query, or fragment" in
      let (plain, h₁) = >>-eq-ok (reject _ unsafe) _ h in
      (
        not_false (is_plain_https (urls.parse b.endpoint)) unsafe plain,
        is_empty-eq-true b.runtime_artifacts (
            not_false (is_empty b.runtime_artifacts)
              "inbound broker cannot publish outbound runtime artifacts" h₁),
      )

  check_outbound-parts :
      (b : Broker)
      → check_outbound b ≡ pass
      → (is_blank b.endpoint ≡ true)
        × (b.runtime_artifacts ≢ [])
        × All (λ a. digest_pattern a.digest ≡ true) b.runtime_artifacts
        × Distinct (references b.runtime_artifacts)
  unfolding check_outbound
  check_outbound-parts b h =
      let contract : String =
        "outbound broker requires a signed runtime artifact and no inbound endpoint" in
      let (shape, h₁) = >>-eq-ok (reject _ contract) _ h in
      let (blank, some_artifact) =
        shape_of (is_blank b.endpoint) (is_empty b.runtime_artifacts) contract shape in
      let (digests, once) = check_runtime_artifacts-pass [] b.runtime_artifacts h₁ in
      (
        blank,
        is_empty-eq-false b.runtime_artifacts some_artifact,
        digests,
        (Fresh-nil_iff (references b.runtime_artifacts)).0 once,
      )
    where
      shape_of :
          (a e : Bool) (message : String)
          → reject (not a || e) message ≡ pass
          → (a ≡ true) × (e ≡ false)
      shape_of a e message k = ground arith

  pub check_broker-IsReached : (b : Broker) → check_broker b ≡ pass → IsReached b
  unfolding check_broker
  check_broker-IsReached b h =
      let only_pulled : String = "connection verification exchange requires outbound transport" in
      let (_, h₁) = >>-eq-ok (reject _ "broker protocol is invalid") _ h in
      let (_, h₂) = >>-eq-ok (reject _ "connection verification protocol is incompatible") _ h₁ in
      let (pulled, h₃) = >>-eq-ok (reject _ only_pulled) _ h₂ in
      elim (modes (transport_mode b == inbound_https) (transport_mode b == outbound_pull)
        (check_inbound b) (check_outbound b) "broker transport is invalid" h₃) [
          | inl (inbound, checked) ↦
              let mode = (eq_iff (transport_mode b) inbound_https).0 inbound in
              let (plain, none_left) = check_inbound-parts b checked in
              record {
                reached = inl (mode, plain, none_left, unverified b only_pulled mode pulled);
              }
          | inr (outbound, checked) ↦
              let (blank, some_artifact, digests, once) = check_outbound-parts b checked in
              record {
                reached = inr (
                  (eq_iff (transport_mode b) outbound_pull).0 outbound,
                  blank,
                  some_artifact,
                  digests,
                  once,
                );
              }
        ]
