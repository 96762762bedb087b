-- ===== src/Discovery/Page.antt =====
-- The pages of discovery.go and their validation against the request that they answer.
use provider_sdk.Base.{
  Bool, Check, List, Option, Result, [], any, contains, deref, elements, is_empty, is_present,
  length, list_eq, nat_eq, none, not, ok, reject, some, ℕ, ◌!=◌, ◌&&◌, ◌*◌, ◌+◌, ◌==◌, ◌>>=◌, ◌>>◌,
  ◌||◌, ◌∷◌,
}
use provider_sdk.Base.Int.{is_less, pos, ℤ}
use provider_sdk.Capability.{ActionCapability, resource_discovery_protocol}
use provider_sdk.Discovery.{DiscoveryRequest, discovery_request_digest}
use provider_sdk.Json.{Tokenizer, Value}
use provider_sdk.Platform.{Encoder, PlainJson, Sha256}
use provider_sdk.Selection.{selector_eq}
use provider_sdk.Text.{Text, discovery_text}
use provider_sdk.Time.{is_after, is_zero_time, second, seconds}

pub record DiscoveredResource : Type 0 where
  pub id : Text
  pub label : Text
  pub kind : Text

pub record DiscoveryPage : Type 0 where
  pub protocol : Text
  pub request_digest : Text
  pub observed_at : ℕ
  pub resources : Option (List DiscoveredResource)
  pub next_cursor : Text
  pub missing_resource_ids : List Text

-- The loop over the resources: the keys of `seen` after it.
unfoldable pub note_resources : List Text → List DiscoveredResource → Result (List Text)
note_resources seen [] = ok seen
note_resources seen (r ∷ rs) = do
  reject
      (not (discovery_text r.id 2048)
        || not (discovery_text r.label 256)
        || not (discovery_text r.kind 128)
        || contains seen r.id)
      "discovery resource identity is invalid or duplicated"
  note_resources (r.id ∷ seen) rs

-- The loop over the missing identities, which goes on with the same map.
unfoldable pub note_missing : List Text → List Text → Result (List Text)
note_missing seen [] = ok seen
note_missing seen (id ∷ ids) = do
  reject (not (discovery_text id 2048) || contains seen id)
      "missing resource identity is invalid or contradictory"
  note_missing (id ∷ seen) ids

-- The part of the validation behind the loop over the resources.
unfoldable pub check_answered : DiscoveryPage → Option (List Text) → List Text → Check
unfolding note_missing
check_answered p none seen =
    reject (not (is_empty p.missing_resource_ids))
      "search response cannot declare missing selected resources"
check_answered p (some ids) seen = do
  reject (not (is_empty p.next_cursor)) "exact revalidation cannot paginate"
  seen' ← note_missing seen p.missing_resource_ids
  reject (length seen' != length ids) "exact revalidation omitted or substituted a resource"
  reject (any (λ id. not (contains seen' id)) ids)
      "exact revalidation omitted or substituted a resource"

-- The tests of times; `age` is the maximum age of the capability.
unfoldable pub is_untimely_page : DiscoveryPage → DiscoveryRequest → ℤ → ℕ → Bool
is_untimely_page p r age now =
    is_zero_time now
    || is_zero_time p.observed_at
    || is_after r.now (now + 30 * second)
    || is_after p.observed_at (now + 30 * second)
    || not (is_after (p.observed_at + seconds age) now)
    || not (is_after (r.now + seconds age) now)

module _ ⦃h : Sha256⦄ ⦃p : PlainJson⦄ ⦃t : Tokenizer⦄ ⦃k : Encoder ActionCapability⦄
    ⦃v : Encoder Value⦄ ⦃e : Encoder DiscoveryRequest⦄ where
  -- `DiscoveryPage.Validate`; the digest of the request stands only for a capability that declares
  -- discovery, so the dereference of it that follows is safe.
  unfoldable pub validate_page : DiscoveryPage → DiscoveryRequest → ActionCapability → ℕ → Check
  unfolding check_answered is_untimely_page note_resources
  validate_page page r capability now = do
    digest ← discovery_request_digest r capability
    reject
        (page.protocol != resource_discovery_protocol
          || page.request_digest != digest
          || not (is_present page.resources)
          || is_less r.limit
              (pos (length (elements page.resources) + length page.missing_resource_ids)))
        "discovery response identity or bounds are invalid"
    discovery ← deref capability.discovery
    reject (is_untimely_page page r discovery.maximum_age_seconds now)
        "discovery evidence is stale or future dated"
    reject
        (not (is_empty page.next_cursor)
          && (not (discovery_text page.next_cursor 4096) || page.next_cursor == r.cursor))
        "discovery pagination did not advance"
    seen ← note_resources [] (elements page.resources)
    check_answered page r.resource_ids seen
