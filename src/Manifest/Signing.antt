-- ===== src/Manifest/Signing.antt =====
-- manifest.go: the canonical bytes of a manifest, their digest, and signatures over them.
use mathlib.Core.Path.{subst}
use provider_sdk.Base.{
  >>-eq-ok, >>=-eq-ok, Bool, Check, Option, Result, ap, arith, eq_iff, false, length, list_eq,
  nat_eq, none, not, ok, ok_of, pass, refl, reject, reject-eq-ok, some, sym, true, ◌!=◌, ◌>>=◌,
  ◌>>◌, ◌||◌, ◌∙◌, ◌≡◌, ◌⊎◌,
}
use provider_sdk.Manifest.{Manifest, UrlParser, validate_manifest}
use provider_sdk.Platform.{Collides, Encoder, Sha256, digest_of, digest_of_binds}
use provider_sdk.Selection.{selector_eq}
use provider_sdk.Text.{Text}

-- crypto/ed25519, and `base64.RawURLEncoding`, with what their documentation states. `new_key` is
-- `ed25519.NewKeyFromSeed`: a private key that the package generates comes from a seed of 32 bytes,
-- and what it signs verifies under its public half. Nothing is stated of other keys of 64 bytes.
pub record Ed25519 : Type 0 where
  pub new_key : Text → Text
  pub sign_bytes : Text → Text → Text
  pub verify_bytes : Text → Text → Text → Bool
  pub public_key : Text → Text
  pub new_key_length : (seed : Text) → length seed ≡ 32 → length (new_key seed) ≡ 64
  pub public_key_length : (key : Text) → length key ≡ 64 → length (public_key key) ≡ 32
  pub verifies_signed :
      (seed message : Text)
      → length seed ≡ 32
      → verify_bytes (public_key (new_key seed)) message (sign_bytes (new_key seed) message) ≡ true

pub record Base64 : Type 0 where
  pub encode : Text → Text
  pub decode : Text → Option Text
  pub decode-encode : (s : Text) → decode (encode s) ≡ some s

pub record SignedManifest : Type 0 where
  pub manifest : Manifest
  pub digest : Text
  pub signature : Text

pub record TrustedPublisher : Type 0 where
  pub id : Text
  pub key_id : Text
  pub public_key : Text

module _ ⦃urls : UrlParser⦄ ⦃m : Encoder Manifest⦄ where
  -- `Canonical`
  unfoldable pub canonical_manifest : Manifest → Result Text
  canonical_manifest manifest = do validate_manifest manifest; m.marshal manifest

  module _ ⦃h : Sha256⦄ where
    -- `Digest`
    unfoldable pub manifest_digest : Manifest → Result Text
    unfolding canonical_manifest
    manifest_digest manifest = do canonical ← canonical_manifest manifest; ok (digest_of canonical)

    module _ ⦃keys : Ed25519⦄ ⦃base : Base64⦄ where
      -- The literal that `Sign` returns.
      abbrev pub signed_with : Manifest → Text → Text → SignedManifest
      signed_with manifest private_key canonical = record {
        manifest = manifest;
        digest = digest_of canonical;
        signature = base.encode (keys.sign_bytes private_key canonical);
      }

      -- `Sign`
      unfoldable pub sign : Manifest → Text → Result SignedManifest
      sign manifest private_key = do
        reject (length private_key != 64) "ed25519 private key is invalid"
        canonical ← canonical_manifest manifest
        ok (signed_with manifest private_key canonical)

      abbrev pub signature_matches : Text → Text → Option Text → Bool
      signature_matches key canonical none = false
      signature_matches key canonical (some signature) = keys.verify_bytes key canonical signature

      -- `Verify`
      unfoldable pub verify : SignedManifest → TrustedPublisher → Check
      verify signed trusted = do
        reject
            (signed.manifest.publisher.id != trusted.id
              || signed.manifest.publisher.key_id != trusted.key_id
              || length trusted.public_key != 32)
            "provider publisher is not trusted"
        canonical ← canonical_manifest signed.manifest
        reject (signed.digest != digest_of canonical) "provider manifest digest does not match"
        reject (not (signature_matches trusted.public_key canonical (base.decode signed.signature)))
            "provider manifest signature is invalid"

      -- A publisher with the id and the key id that the manifest names, whose trusted key is the
      -- public half of the private one.
      pub record Trusts (trusted : TrustedPublisher) (manifest : Manifest) (private_key : Text)
          : Type 0 where
        pub same_id : trusted.id ≡ manifest.publisher.id
        pub same_key_id : trusted.key_id ≡ manifest.publisher.key_id
        pub same_key : trusted.public_key ≡ keys.public_key private_key

      signed_parts :
          (manifest : Manifest) (private_key : Text) (signed : SignedManifest)
          → sign manifest private_key ≡ ok signed
          → (canonical : Text) × (length private_key ≡ 64)
            × (canonical_manifest manifest ≡ ok canonical)
            × (signed_with manifest private_key canonical ≡ signed)
      unfolding sign
      signed_parts manifest private_key signed h =
          let (sized, rest) =
            >>-eq-ok (reject (length private_key != 64) "ed25519 private key is invalid") _ h in
          let (canonical, encoded, e) = >>=-eq-ok (canonical_manifest manifest) _ rest in
          (canonical, ground (arith, eq_iff (length private_key) 64), encoded, cc)

      verify-signed_with :
          (manifest : Manifest) (seed canonical : Text) (trusted : TrustedPublisher)
          → length seed ≡ 32
          → canonical_manifest manifest ≡ ok canonical
          → Trusts trusted manifest (keys.new_key seed)
          → verify (signed_with manifest (keys.new_key seed) canonical) trusted ≡ pass
      unfolding verify
      verify-signed_with manifest seed canonical trusted sized encoded t = rw encoded (
          ground (
            arith,
            eq_iff manifest.publisher.id trusted.id,
            eq_iff manifest.publisher.key_id trusted.key_id,
            eq_iff (digest_of canonical) (digest_of canonical),
            base.decode-encode (keys.sign_bytes (keys.new_key seed) canonical),
            keys.verifies_signed seed canonical,
            keys.new_key_length seed sized,
            keys.public_key_length (keys.new_key seed),
          ))

      -- A manifest that was signed with a private key generated from a seed verifies for every trusted
      -- publisher that has the manifest's publisher id and key id and the public half of that key.
      pub verify-sign :
          (manifest : Manifest) (seed : Text) (trusted : TrustedPublisher) (signed : SignedManifest)
          → length seed ≡ 32
          → sign manifest (keys.new_key seed) ≡ ok signed
          → Trusts trusted manifest (keys.new_key seed)
          → verify signed trusted ≡ pass
      verify-sign manifest seed trusted signed sized h t =
          let (canonical, _, encoded, e) = signed_parts manifest (keys.new_key seed) signed h in
          subst (λ s. verify s trusted ≡ pass) e
            (verify-signed_with manifest seed canonical trusted sized encoded t)

      -- What a verified manifest is: valid, from the trusted publisher, under its own digest, and
      -- with a signature of the trusted key over exactly its canonical bytes.
      pub record IsVerified (signed : SignedManifest) (trusted : TrustedPublisher) : Type 0 where
        pub canonical : Text
        pub signature_bytes : Text
        pub same_id : signed.manifest.publisher.id ≡ trusted.id
        pub same_key_id : signed.manifest.publisher.key_id ≡ trusted.key_id
        pub valid : validate_manifest signed.manifest ≡ pass
        pub encodes : m.marshal signed.manifest ≡ ok canonical
        pub digest : signed.digest ≡ digest_of canonical
        pub decodes : base.decode signed.signature ≡ some signature_bytes
        pub signature : keys.verify_bytes trusted.public_key canonical signature_bytes ≡ true

      signature_matches_parts :
          (key canonical : Text) (decoded : Option Text)
          → signature_matches key canonical decoded ≡ true
          → (bytes_of : Text) × (decoded ≡ some bytes_of)
            × (keys.verify_bytes key canonical bytes_of ≡ true)
      signature_matches_parts key canonical (some s) h = (s, refl, h)
      signature_matches_parts key canonical none h = cc

      verified_tail :
          (signed : SignedManifest) (trusted : TrustedPublisher) (canonical : Text)
          → (do
            reject (signed.digest != digest_of canonical) "provider manifest digest does not match"
            reject
                (not
                  (signature_matches trusted.public_key canonical (base.decode signed.signature)))
                "provider manifest signature is invalid")
            ≡ pass
          → (signed.digest ≡ digest_of canonical)
            × (signature_matches trusted.public_key canonical (base.decode signed.signature) ≡ true)
      verified_tail signed trusted canonical h =
          ground (arith, eq_iff signed.digest (digest_of canonical))

      trusted_head :
          (signed : SignedManifest) (trusted : TrustedPublisher)
          → (signed.manifest.publisher.id != trusted.id
              || signed.manifest.publisher.key_id != trusted.key_id
              || length trusted.public_key != 32)
            ≡ false
          → (signed.manifest.publisher.id ≡ trusted.id)
            × (signed.manifest.publisher.key_id ≡ trusted.key_id)
      trusted_head signed trusted h = ground (
        arith,
        eq_iff signed.manifest.publisher.id trusted.id,
        eq_iff signed.manifest.publisher.key_id trusted.key_id,
      )

      -- Verification succeeds only for a valid manifest with the id and the key id of the trusted
      -- publisher, under the digest of its own canonical bytes, and with a signature that the trusted key
      -- verifies over exactly these bytes.
      pub verify-IsVerified :
          (signed : SignedManifest) (trusted : TrustedPublisher)
          → verify signed trusted ≡ pass
          → IsVerified signed trusted
      unfolding verify canonical_manifest
      verify-IsVerified signed trusted h =
          let (known, h₁) = >>-eq-ok (reject _ "provider publisher is not trusted") _ h in
          let (canonical, encoded, h₂) = >>=-eq-ok (canonical_manifest signed.manifest) _ h₁ in
          let (valid, marshalled) =
            >>-eq-ok (validate_manifest signed.manifest) (m.marshal signed.manifest) encoded in
          let (same_id, same_key_id) = trusted_head signed trusted (reject-eq-ok _ _ known) in
          let (digest, matched) = verified_tail signed trusted canonical h₂ in
          let (signature_bytes, decodes, signature) =
            signature_matches_parts trusted.public_key canonical (base.decode signed.signature)
              matched in
          record {
            canonical = canonical;
            signature_bytes = signature_bytes;
            same_id = same_id;
            same_key_id = same_key_id;
            valid = valid;
            encodes = marshalled;
            digest = digest;
            decodes = decodes;
            signature = signature;
          }

      -- Two verified manifests with one digest have the same canonical bytes, unless the two byte
      -- strings are a collision of SHA-256.
      pub verify-digest_binds :
          (a b : SignedManifest) (s t : TrustedPublisher) (x y : Text)
          → verify a s ≡ pass
          → verify b t ≡ pass
          → m.marshal a.manifest ≡ ok x
          → m.marshal b.manifest ≡ ok y
          → a.digest ≡ b.digest
          → (x ≡ y) ⊎ Collides x y
      verify-digest_binds a b s t x y va vb ex ey e =
          let p = verify-IsVerified a s va in
          let q = verify-IsVerified b t vb in
          let px : p.canonical ≡ x = ok_of (sym p.encodes ∙ ex) in
          let qy : q.canonical ≡ y = ok_of (sym q.encodes ∙ ey) in
          digest_of_binds x y
            (ap digest_of (sym px) ∙ sym p.digest ∙ e ∙ q.digest ∙ ap digest_of qy)
