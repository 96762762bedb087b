-- ===== src/Discovery/Accepted.antt =====
-- What a valid page promises.
use mathlib.Core.Path.{subst}
use provider_sdk.Base.{
  >>-eq-ok, >>=-eq-ok, Bool, List, Option, String, [], ap, arith, deref, deref-eq-ok, elements,
  eq_iff, false, is_present, length, list_eq, nat_eq, none, not, ok, pass, reject, reject-eq-ok,
  relabel, some, sym, true, ℕ, ◌!=◌, ◌*◌, ◌+◌, ◌<◌, ◌||◌, ◌∙◌, ◌≡◌, ◌≤◌,
}
use provider_sdk.Base.Int.{between, is_less, pos, pos_part, ℤ}
use provider_sdk.Capability.{
  ActionCapability, ResourceDiscovery, action_capability_digest, optional,
  resource_discovery_protocol, validate_capability, validate_discovery, validate_semantics,
}
use provider_sdk.Discovery.{
  DiscoveryRequest, check_configuration, check_exact_mode, discovery_of, discovery_request_digest,
  is_oversized, validate_discovery_request,
}
use provider_sdk.Json.{Tokenizer, Value, decode_parameter_json}
use provider_sdk.Platform.{Encoder, PlainJson, Sha256}
use provider_sdk.Selection.{selector_eq}
use provider_sdk.Text.{Text}
use provider_sdk.Discovery.Exact.{IsExact, exact_mode-Distinct, IsExact-of_parts}
use provider_sdk.Discovery.Page.{
  DiscoveryPage, check_answered, is_untimely_page, note_resources, validate_page,
}
use provider_sdk.Time.{second}

bounds_of :
    (a b c : Bool) (message : String)
    → reject (a || b || c) message ≡ pass
    → (a ≡ false) × (b ≡ false)
bounds_of a b c message h = ground arith

discovery_of-eq-ok :
    (o : Option ResourceDiscovery) {d : ResourceDiscovery} → discovery_of o ≡ ok d → o ≡ some d
discovery_of-eq-ok none h = cc
discovery_of-eq-ok (some d) h = cc

module _ ⦃h : Sha256⦄ ⦃p : PlainJson⦄ ⦃t : Tokenizer⦄ ⦃k : Encoder ActionCapability⦄ where
  -- The tests of a valid request that later parts look back to.
  pub request_parts :
      (r : DiscoveryRequest) (capability : ActionCapability)
      → validate_discovery_request r capability ≡ pass
      → (d : ResourceDiscovery) × (capability.discovery ≡ some d)
        × (validate_capability capability ≡ pass)
        × (is_less r.limit (pos 1) ≡ false)
        × (is_less d.maximum_page_size r.limit ≡ false)
        × (check_exact_mode r r.resource_ids ≡ pass)
  unfolding validate_discovery_request
  request_parts r capability accepted =
      let (valid, h₁) = >>-eq-ok (validate_capability capability) _ accepted in
      let (d, declared, h₂) = >>=-eq-ok (discovery_of capability.discovery) _ h₁ in
      let (digest, _, h₃) = >>=-eq-ok (relabel (action_capability_digest capability) _) _ h₂ in
      let (_, h₄) = >>-eq-ok (reject _ "discovery request identity is invalid") _ h₃ in
      let (_, h₅) = >>-eq-ok (reject _ "discovery coordinates are invalid") _ h₄ in
      let (bounds, h₆) = >>-eq-ok (reject _ "discovery request exceeds its bounds") _ h₅ in
      let (_, h₇) = >>-eq-ok (check_configuration (decode_parameter_json r.configuration)) _ h₆ in
      let (_, mode) = >>-eq-ok (reject _ "discovery query or cursor is invalid") _ h₇ in
      let (low, high) =
        bounds_of (is_less r.limit (pos 1)) (is_less d.maximum_page_size r.limit)
          (is_oversized r.configuration) "discovery request exceeds its bounds" bounds in
      (d, discovery_of-eq-ok capability.discovery declared, valid, low, high, mode)

  module _ ⦃v : Encoder Value⦄ ⦃e : Encoder DiscoveryRequest⦄ where
    digest_parts :
        (r : DiscoveryRequest) (capability : ActionCapability) (digest : Text)
        → discovery_request_digest r capability ≡ ok digest
        → validate_discovery_request r capability ≡ pass
    unfolding discovery_request_digest
    digest_parts r capability digest accepted =
        (>>-eq-ok (validate_discovery_request r capability) _ accepted).0

    page_parts :
        (page : DiscoveryPage) (r : DiscoveryRequest) (capability : ActionCapability) (now : ℕ)
        → validate_page page r capability now ≡ pass
        → (digest : Text) × (d : ResourceDiscovery) × (seen : List Text) × (discovery_request_digest
              r capability
            ≡ ok digest)
          × (capability.discovery ≡ some d)
          × (reject
                (page.protocol != resource_discovery_protocol
                  || page.request_digest != digest
                  || not (is_present page.resources)
                  || is_less r.limit
                      (pos (length (elements page.resources) + length page.missing_resource_ids)))
                "discovery response identity or bounds are invalid"
              ≡ pass)
          × (is_untimely_page page r d.maximum_age_seconds now ≡ false)
          × (note_resources [] (elements page.resources) ≡ ok seen)
          × (check_answered page r.resource_ids seen ≡ pass)
    unfolding validate_page
    page_parts page r capability now accepted =
        let (digest, digested, h₁) = >>=-eq-ok (discovery_request_digest r capability) _ accepted in
        let (identity, h₂) =
          >>-eq-ok (reject _ "discovery response identity or bounds are invalid") _ h₁ in
        let (d, declared, h₃) = >>=-eq-ok (deref capability.discovery) _ h₂ in
        let (timely, h₄) = >>-eq-ok (reject _ "discovery evidence is stale or future dated") _ h₃ in
        let (_, h₅) = >>-eq-ok (reject _ "discovery pagination did not advance") _ h₄ in
        let (seen, noted, answered) =
          >>=-eq-ok (note_resources [] (elements page.resources)) _ h₅ in
        (
          digest,
          d,
          seen,
          digested,
          deref-eq-ok capability.discovery declared,
          identity,
          reject-eq-ok (is_untimely_page page r d.maximum_age_seconds now) _ timely,
          noted,
          answered,
        )

-- A page that is accepted for a request with `ResourceIDs` is exact: each requested resource is shown
-- or declared missing and not both, no other resource is shown or declared missing, none twice, and
-- there is no further page.
pub validate_page-IsExact :
    ⦃h : Sha256⦄ ⦃p : PlainJson⦄ ⦃t : Tokenizer⦄ ⦃k : Encoder ActionCapability⦄ ⦃v : Encoder Value⦄
    ⦃e : Encoder DiscoveryRequest⦄ (page : DiscoveryPage) (r : DiscoveryRequest)
    (capability : ActionCapability) (now : ℕ) (ids : List Text)
    → r.resource_ids ≡ some ids
    → validate_page page r capability now ≡ pass
    → IsExact page ids
validate_page-IsExact page r capability now ids selected accepted =
    let (digest, d, seen, digested, declared, identity, timely, noted, answered) =
      page_parts page r capability now accepted in
    let (_, _, _, _, _, mode) =
      request_parts r capability (digest_parts r capability digest digested) in
    IsExact-of_parts page ids seen
      (exact_mode-Distinct r ids (subst (λ o. check_exact_mode r o ≡ pass) selected mode)) noted
      (subst (λ o. check_answered page o seen ≡ pass) selected answered)

pub declared_bounds :
    (capability : ActionCapability) (d : ResourceDiscovery)
    → validate_capability capability ≡ pass
    → capability.discovery ≡ some d
    → (between 1 200 d.maximum_page_size ≡ true) × (between 1 300 d.maximum_age_seconds ≡ true)
unfolding validate_capability validate_discovery
declared_bounds capability d valid declared =
    let (_, rest) = >>-eq-ok (optional validate_semantics capability.semantics) _ valid in
    let (good, _) = >>-eq-ok (optional validate_discovery capability.discovery) _ rest in
    within_bounds (d.protocol != resource_discovery_protocol) (between 1 200 d.maximum_page_size)
      (between 1 300 d.maximum_age_seconds)
      (subst (λ o. optional validate_discovery o ≡ pass) declared good)
  where
    within_bounds :
        (a b c : Bool)
        → reject (a || not b || not c) "resource discovery contract is invalid" ≡ pass
        → (b ≡ true) × (c ≡ true)
    within_bounds a b c h = ground arith

identity_of :
    (page : DiscoveryPage) (r : DiscoveryRequest) (digest : Text)
    → reject
        (page.protocol != resource_discovery_protocol
          || page.request_digest != digest
          || not (is_present page.resources)
          || is_less r.limit
              (pos (length (elements page.resources) + length page.missing_resource_ids)))
        "discovery response identity or bounds are invalid"
      ≡ pass
    → (page.request_digest ≡ digest)
      × (is_less r.limit (pos (length (elements page.resources) + length page.missing_resource_ids))
          ≡ false)
identity_of page r digest h = ground (arith, eq_iff page.request_digest digest)

limits_of :
    (n : ℕ) (limit size : ℤ)
    → is_less limit (pos n) ≡ false
    → is_less limit (pos 1) ≡ false
    → is_less size limit ≡ false
    → between 1 200 size ≡ true
    → (n ≤ pos_part limit) × (pos_part limit ≤ 200)
limits_of n limit size h low high bound = ground arith

times_of :
    (page : DiscoveryPage) (r : DiscoveryRequest) (age : ℤ) (now : ℕ)
    → is_untimely_page page r age now ≡ false
    → between 1 300 age ≡ true
    → (page.observed_at ≤ now + 30 * second)
      × (now < page.observed_at + 300 * second)
      × (now < r.now + 300 * second)
unfolding is_untimely_page
times_of page r age now timely bound = ground arith

-- An answer to exactly this request, complete within its limit and at most 200 entries long, and
-- observed within the last five minutes of a clock that is at most 30 seconds behind.
pub record IsAnswer ⦃h : Sha256⦄ ⦃p : PlainJson⦄ ⦃t : Tokenizer⦄ ⦃k : Encoder ActionCapability⦄
    ⦃v : Encoder Value⦄ ⦃e : Encoder DiscoveryRequest⦄ (page : DiscoveryPage) (r : DiscoveryRequest)
    (capability : ActionCapability) (now : ℕ) : Type 0 where
  pub digested : discovery_request_digest r capability ≡ ok page.request_digest
  pub limited :
      length (elements page.resources) + length page.missing_resource_ids ≤ pos_part r.limit
  pub short : pos_part r.limit ≤ 200
  pub observed : page.observed_at ≤ now + 30 * second
  pub recent : now < page.observed_at + 300 * second
  pub asked : now < r.now + 300 * second

-- A page that is accepted carries the digest of this request, has no more entries than the request's
-- limit and than 200, and was observed less than five minutes before the time `now`, and the request
-- was made less than five minutes before it.
pub validate_page-IsAnswer :
    ⦃h : Sha256⦄ ⦃p : PlainJson⦄ ⦃t : Tokenizer⦄ ⦃k : Encoder ActionCapability⦄ ⦃v : Encoder Value⦄
    ⦃e : Encoder DiscoveryRequest⦄ (page : DiscoveryPage) (r : DiscoveryRequest)
    (capability : ActionCapability) (now : ℕ)
    → validate_page page r capability now ≡ pass
    → IsAnswer page r capability now
validate_page-IsAnswer page r capability now accepted =
    let (digest, d, seen, digested, declared, identity, timely, noted, answered) =
      page_parts page r capability now accepted in
    let (d', declared', valid, low, high, _) =
      request_parts r capability (digest_parts r capability digest digested) in
    let (size_bound, age_bound) = declared_bounds capability d valid declared in
    let same : d' ≡ d = cc in
    let (mine, fits_limit) = identity_of page r digest identity in
    let (limited, short) =
      limits_of (length (elements page.resources) + length page.missing_resource_ids) r.limit
        d.maximum_page_size fits_limit low
        (subst (λ x. is_less x.maximum_page_size r.limit ≡ false) same high) size_bound in
    let (observed, recent, asked) = times_of page r d.maximum_age_seconds now timely age_bound in
    record {
      digested = digested ∙ ap ok (sym mine);
      limited = limited;
      short = short;
      observed = observed;
      recent = recent;
      asked = asked;
    }
