-- ===== src/Lib.antt =====
-- A model of the provider SDK, the Go package `provideradapter`: the contract between a control plane
-- and the adapters that issue credentials and execute typed actions for it.
--
-- Parts of the program, and the files that model them:
--   Text, Text/Patterns      strings as bytes: trimming, UTF-8, the regular expressions of manifest.go
--                            and protocol.go, and discoveryText of discovery.go
--   Json                     decodeParameterJSON and readParameterValue of constraints.go over a token
--                            stream; Json/Number is compareNumber and the test of a number's exponent,
--                            with big.Rat as exact decimals; Json/Equality is parameterEqual and
--                            parameterType
--   Selection                ValidateResourceSelection and MatchesResources of constraints.go, and
--                            capability_selection.go
--   Limits                   ParameterLimits: Validate, Matches and inRange of constraints.go
--   Rules                    MatchesAuthorizationRule, ParametersWithinRules and
--                            ParametersWithinCapabilityRules
--   Authorization            Authorization.Validate of protocol.go and the features of constraints.go;
--                            Authorization/Digests is AuthorizationDigest
--   Capability               ActionCapability of manifest.go, ActionSemantics of assessment.go and
--                            ResourceDiscovery of discovery.go
--   Manifest                 manifest.go: Validate; Manifest/Signing is Canonical, Digest, Sign, Verify
--   Assessment               assessment.go and policy_binding.go
--   Requests, Lifetime       the requests of protocol.go, Requests/Rendering what a renderer is given and
--                            gives; credential_lifetime.go
--   Action                   ActionDigest, ActionAuthority, ActionExecution and ExecuteActionRequest of
--                            protocol.go; Action/Verified is VerifyActionRequest, ActionVerification
--   Http                     Signature and VerifySignature of protocol.go and authenticate of http.go;
--                            Http/Handlers and Http/Actions are its handlers, Http/Client its client
--                            with Http/Calls, Http/Routes its start and routes, Http/Discoveries the
--                            two ends of discovery (discovery_transport.go)
--   Json/Canonical           canonicalDiscoveryNumbers of discovery.go; Json/Alike is the equality of
--                            decoded Go values, in which objects have no order
--   Discovery                DiscoveryRequest of discovery.go and its digest; Discovery/Page is
--                            DiscoveryPage, Discovery/Service the DiscoveryService and ValidateAt of
--                            discovery_transport.go
--   Outbound                 RuntimeRegistration and DispatchResult of outbound.go; Outbound/Dispatched is
--                            Dispatch and DispatchRequestDigest, Outbound/Discovering and
--                            Outbound/Connecting its DiscoverResources and VerifyConnection
--   Connections              connection_verification.go without its dispatch
--   Platform                 JSONDigest of protocol.go, decodeStrict and requireJSONEOF of http.go
--   Base, Time               results, lists and tests that the others share; time as nanoseconds
--   Witnesses                examples over concrete stand-ins
-- A child module of a component (Rules/Ceilings, Http/Retention) holds theorems about its parent.
--
-- How the parts interact: a manifest is validated and signed; its capabilities have digests. An
-- authorization selects resources and capabilities and limits parameters through its rules; an
-- issuer checks that it declares the features for exact resources, parameter limits and
-- capability bindings where these are used. A request reaches an implementation through the
-- handlers, which authenticate it and remember its nonce; a typed action carries digests that
-- bind it to its capability and its authority. A discovery request reaches its service through a
-- handler or as a dispatch that a runtime claimed, a verification of a connection as a dispatch;
-- the service admits it for its own release and checks what the implementation returns.
--
-- Correspondence: a Go error is `err` with its message, `nil` is `pass`, and a nil dereference
-- is `panic`. A nil slice is `none`. A loop with a map `seen` carries the keys met. A map is an
-- association list in the order in which a loop meets it; a decoded JSON object is the list of
-- its members as read, and Json/Alike says when two of these are one Go value, whatever their
-- order. The handler's map of nonces is passed as state; each authentication takes the mutex
-- once, so a sequence of authentications stands for any interleaving. An implementation is a
-- function of its own state; for those of discovery and of connections it also takes the time
-- that its context leaves, and Surroundings says how long the call took and whether the context
-- had ended before or after it.
--
-- Fuel: readParameterValue runs on fuel, 2 * n + 1 for n tokens: each call of a loop or of the reader of a
-- value spends one and every round takes a token. Json/Fuel shows that it is enough. The digits of a
-- number n are written on fuel n + 1; Json/Canonical/Unique shows that they have its value.
--
-- Interfaces for code that is not part of the repository: the tokens of encoding/json (Tokenizer), its
-- encoders and decoders of Go values (Encoder, Decoder, PlainJson), SHA-256, HMAC, Ed25519, base64,
-- net/url and the layout RFC 3339. Their records state the documented laws that the theorems use.
--
-- Not modelled: the dispatch of a path to its handler (net/http), the transport of bytes and the random
-- source (input and output), which the client takes as arguments. Times at the far ends of the 64-bit
-- range, where Add would wrap, are left out. JSON field names of records are in the encoders.
pub mod Base
pub mod Text
pub mod Json
pub mod Selection
pub mod Limits
pub mod Rules
pub mod Authorization
pub mod Time
pub mod Platform
pub mod Capability
pub mod Assessment
pub mod Manifest
pub mod Requests
pub mod Lifetime
pub mod Discovery
pub mod Http
pub mod Action
pub mod Connections
pub mod Outbound
pub mod Witnesses
