-- ===== src/Action/Binding.antt =====
-- What the validation of a typed action binds together.
use provider_sdk.Action.{
  ActionAuthority, ActionIdentity, ExecuteActionRequest, action_digest, check_binding,
  decode_parameters, identities, validate_authority, validate_execute_request,
}
use provider_sdk.Base.{
  >>-eq-ok, >>=-eq-ok, Result, String, any, ap, arith, eq_iff, err, hang, list_eq, nat_eq, ok,
  ok_of, panic, pass, reject, relabel, some, sym, ℕ, ◌!=◌, ◌+◌, ◌<◌, ◌||◌, ◌∙◌, ◌≡◌, ◌≤◌, ◌⊎◌,
}
use provider_sdk.Json.{Value}
use provider_sdk.Platform.{Collides, Encoder, PlainJson, Sha256, digest_of, digest_of_binds}
use provider_sdk.Selection.{selector_eq}
use provider_sdk.Text.{Text, is_blank}
use provider_sdk.Time.{second, seconds}
use provider_sdk.Base.Int.{ℤ}
use provider_sdk.Capability.{ActionCapability, action_capability_digest}

relabel-eq-ok :
    {A : Type 0} (r : Result A) (message : String) {a : A} → relabel r message ≡ ok a → r ≡ ok a
relabel-eq-ok (ok a) message h = h
relabel-eq-ok (err e) message h = cc
relabel-eq-ok panic message h = cc
relabel-eq-ok hang message h = cc

-- The authority approves this action and capability, and lapses within the maximum and a second.
pub record Approves (a : ActionAuthority) (now : ℕ) (action capability : Text) (ttl : ℤ)
    : Type 0 where
  pub approves_action : a.action_digest ≡ action
  pub approves_capability : a.capability_digest ≡ capability
  pub approved_first : a.approved_at ≤ a.expires_at
  pub live : now < a.expires_at
  pub brief : a.expires_at ≤ now + seconds ttl + second

validate_authority-Approves :
    (a : ActionAuthority) (now : ℕ) (action capability : Text) (ttl : ℤ)
    → validate_authority a now action capability ttl ≡ pass
    → Approves a now action capability ttl
unfolding validate_authority
validate_authority-Approves a now action capability ttl e =
    let first = eq_iff a.action_digest action in
    let second' = eq_iff a.capability_digest capability in
    record {
      approves_action = ground arith;
      approves_capability = ground arith;
      approved_first = ground arith;
      live = ground arith;
      brief = ground arith;
    }

agree_of :
    (a a' b b' c c' d d' : Text) (message : String)
    → reject (a != a' || b != b' || c != c' || d != d') message ≡ pass
    → (a ≡ a') × (b ≡ b') × (c ≡ c') × (d ≡ d')
agree_of a a' b b' c c' d d' message e =
    ground (arith, eq_iff a a', eq_iff b b', eq_iff c c', eq_iff d d')

scope_of :
    (a a' b b' : Text) (message : String)
    → reject (a != a' || b != b') message ≡ pass
    → (a ≡ a') × (b ≡ b')
scope_of a a' b b' message e = ground (arith, eq_iff a a', eq_iff b b')

module _ ⦃h : Sha256⦄ ⦃p : PlainJson⦄ ⦃m : Encoder ActionIdentity⦄ where
  -- A digest of an action is the digest of an encoding of its identity with the decoded parameters.
  abbrev pub Encodes : Text → Text → Text → Text → Text → Text → Type 0
  Encodes capability operation resource environment parameters encoded =
      (decoded : Value) × (p.unmarshal parameters ≡ some decoded)
      × (m.marshal (record {
        capability_digest = capability;
        operation = operation;
        resource = resource;
        environment = environment;
        parameters = decoded;
      })
          ≡ ok encoded)

  decode_parameters-eq-ok :
      (parameters : Text) (v : Value)
      → decode_parameters parameters ≡ ok v
      → p.unmarshal parameters ≡ some v
  unfolding decode_parameters
  decode_parameters-eq-ok parameters v e = ground arith

  action_digest-eq-ok :
      (capability operation resource environment parameters digest : Text)
      → action_digest capability operation resource environment parameters ≡ ok digest
      → (encoded : Text) × Encodes capability operation resource environment parameters encoded
        × (digest ≡ digest_of encoded)
  unfolding action_digest
  action_digest-eq-ok capability operation resource environment parameters digest e =
      let (_, rest) = >>-eq-ok (reject _ _) _ e in
      let (decoded, d, rest') = >>=-eq-ok (decode_parameters parameters) _ rest in
      let (encoded, f, last) = >>=-eq-ok (m.marshal _) _ rest' in
      (encoded, (decoded, decode_parameters-eq-ok parameters decoded d, f), ok_of (sym last))

  module _ ⦃k : Encoder ActionCapability⦄ where
    -- The request names the digest of this very capability, and its own digest is one of its fields.
    pub record IsBound (r : ExecuteActionRequest) (capability : ActionCapability) : Type 0 where
      pub same_ref : r.capability_ref ≡ capability.ref
      pub same_operation : r.operation ≡ capability.operation
      pub capability_digested : action_capability_digest capability ≡ ok r.capability_digest
      pub action_digested :
          action_digest r.capability_digest r.operation r.resource r.environment r.parameters
          ≡ ok r.action_digest
      pub same_account : r.subject.account_ref ≡ r.account_ref
      pub same_environment : r.subject.environment ≡ r.environment
      pub approved :
          Approves r.authority r.now r.action_digest r.capability_digest
            capability.maximum_ttl_seconds

    check_binding-eq-pass :
        (ref operation capability_digest given resource environment parameters : Text)
        (capability : ActionCapability) (message : String)
        → check_binding ref operation capability_digest given resource environment parameters
            capability message
          ≡ pass
        → (ref ≡ capability.ref)
          × (operation ≡ capability.operation)
          × (action_capability_digest capability ≡ ok capability_digest)
          × (action_digest capability_digest operation resource environment parameters ≡ ok given)
    unfolding check_binding
    check_binding-eq-pass ref operation capability_digest given resource environment parameters
          capability message e =
        let (c', d, rest) = >>=-eq-ok (relabel (action_capability_digest capability) message) _ e in
        let (a', f, last) =
          >>=-eq-ok
            (relabel (action_digest capability_digest operation resource environment parameters)
              message)
            _ rest in
        let d' = relabel-eq-ok (action_capability_digest capability) message d in
        let f' =
          relabel-eq-ok (action_digest capability_digest operation resource environment parameters)
            message f in
        let (same_ref, same_operation, same_c, same_a) =
          agree_of ref capability.ref operation capability.operation capability_digest c' given a'
            message last in
        (same_ref, same_operation, d' ∙ ap ok (sym same_c), f' ∙ ap ok (sym same_a))

    validate_execute_request_parts :
        (r : ExecuteActionRequest) (capability : ActionCapability)
        → validate_execute_request r capability ≡ pass
        → (check_binding r.capability_ref r.operation r.capability_digest r.action_digest r.resource
              r.environment r.parameters capability "typed action capability binding is invalid"
            ≡ pass)
          × (reject
                (r.subject.account_ref != r.account_ref || r.subject.environment != r.environment)
                "typed action subject is outside the requested scope"
              ≡ pass)
          × (validate_authority r.authority r.now r.action_digest r.capability_digest
                capability.maximum_ttl_seconds
              ≡ pass)
    unfolding validate_execute_request
    validate_execute_request_parts r capability e =
        let (_, rest) = >>-eq-ok (reject (any is_blank (identities r)) _) _ e in
        let (binding, rest') = >>-eq-ok (check_binding _ _ _ _ _ _ _ capability _) _ rest in
        let (_, rest'') = >>-eq-ok (reject _ _) _ rest' in
        let (scope, authority) = >>-eq-ok (reject _ _) _ rest'' in (binding, scope, authority)

-- A request that ExecuteActionRequest.Validate accepts names the digest of the capability that the
-- adapter holds and the digest of its own operation, resource, environment and parameters; its
-- subject acts for the same account and environment; and its authority approves these two digests,
-- is live, and lapses within the capability's maximum and a second.
pub validate_execute_request-IsBound :
    ⦃h : Sha256⦄ ⦃p : PlainJson⦄ ⦃m : Encoder ActionIdentity⦄ ⦃k : Encoder ActionCapability⦄
    (r : ExecuteActionRequest) (capability : ActionCapability)
    → validate_execute_request r capability ≡ pass
    → IsBound r capability
validate_execute_request-IsBound r capability e =
    let (binding, scope, authority) = validate_execute_request_parts r capability e in
    let (ref, operation, digested, digested') =
      check_binding-eq-pass r.capability_ref r.operation r.capability_digest r.action_digest
        r.resource r.environment r.parameters capability
        "typed action capability binding is invalid" binding in
    let (account, environment) =
      scope_of r.subject.account_ref r.account_ref r.subject.environment r.environment
        "typed action subject is outside the requested scope" scope in
    record {
      same_ref = ref;
      same_operation = operation;
      capability_digested = digested;
      action_digested = digested';
      same_account = account;
      same_environment = environment;
      approved =
          validate_authority-Approves r.authority r.now r.action_digest r.capability_digest
            capability.maximum_ttl_seconds authority;
    }

-- Two requests that are accepted under one authority encode to the same identity, however their
-- parameters are written, or they show a collision of SHA-256.
pub one_authority_one_action :
    ⦃h : Sha256⦄ ⦃p : PlainJson⦄ ⦃m : Encoder ActionIdentity⦄ ⦃k : Encoder ActionCapability⦄
    (r r' : ExecuteActionRequest) (capability capability' : ActionCapability)
    → validate_execute_request r capability ≡ pass
    → validate_execute_request r' capability' ≡ pass
    → r'.authority ≡ r.authority
    → (a : Text) × (b : Text) × Encodes r.capability_digest r.operation r.resource r.environment
        r.parameters a
      × Encodes r'.capability_digest r'.operation r'.resource r'.environment r'.parameters b
      × ((a ≡ b) ⊎ Collides a b)
one_authority_one_action r r' capability capability' e e' same =
    let one = validate_execute_request-IsBound r capability e in
    let two = validate_execute_request-IsBound r' capability' e' in
    let (a, coded, digested) =
      action_digest-eq-ok r.capability_digest r.operation r.resource r.environment r.parameters
        r.action_digest one.action_digested in
    let (b, coded', digested') =
      action_digest-eq-ok r'.capability_digest r'.operation r'.resource r'.environment r'.parameters
        r'.action_digest two.action_digested in
    let approved : r.action_digest ≡ r'.action_digest =
      sym one.approved.approves_action
      ∙ (ap (λ x. x.action_digest) (sym same) ∙ two.approved.approves_action) in
    (a, b, coded, coded', digest_of_binds a b (sym digested ∙ (approved ∙ digested')))
