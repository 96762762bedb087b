-- ===== src/Witnesses/Handled.antt =====
-- An example of the handler of discovery.
use provider_sdk.Witnesses.Listings
use provider_sdk.Witnesses.Services
use provider_sdk.Witnesses.Transport.{at_1000, handler, hello}
use provider_sdk.Witnesses.Releases.{https_parser}
use provider_sdk.Base.{[], some, ◌*◌, ◌≡◌, ◌⊎◌}
use provider_sdk.Text.{Text}
use provider_sdk.Time.{second}
use provider_sdk.Witnesses.{flat_encoder, flat_sha256, plain_hmac, plain_rfc3339}
use provider_sdk.Http.Discovered.{Asked, handle_discover_resources-Asked}
use provider_sdk.Http.Discoveries.{handle_discover_resources}
use provider_sdk.Http.Window.{IsAuthentic}

handle_discover_resources-Asked_example :
    ((handle_discover_resources ⦃m = plain_hmac⦄ ⦃r = plain_rfc3339⦄ ⦃h = flat_sha256⦄
        ⦃p = Listings.lenient_json⦄ ⦃t = Listings.size_tokenizer⦄ ⦃k = flat_encoder⦄
        ⦃v = flat_encoder⦄ ⦃e = flat_encoder⦄ ⦃urls = https_parser⦄ ⦃n = flat_encoder⦄
        ⦃d = Services.listing_decoder⦄ ⦃b = flat_encoder⦄ handler
        (some Services.lister)
        hello
        at_1000
        Listings.now
        Listings.now
        Services.calm
        []
        0).2
      ≡ 0)
    ⊎ ((body : Text) × IsAuthentic ⦃m = plain_hmac⦄ ⦃p = plain_rfc3339⦄ handler hello body
          (1000 * second)
        × Asked ⦃m = plain_hmac⦄ ⦃r = plain_rfc3339⦄ ⦃h = flat_sha256⦄ ⦃p = Listings.lenient_json⦄
            ⦃t = Listings.size_tokenizer⦄ ⦃k = flat_encoder⦄ ⦃v = flat_encoder⦄ ⦃e = flat_encoder⦄
            ⦃urls = https_parser⦄ ⦃n = flat_encoder⦄ ⦃d = Services.listing_decoder⦄
            ⦃b = flat_encoder⦄ handler
            (some Services.lister)
            Listings.now
            Listings.now
            Services.calm
            body
            0
            (handle_discover_resources ⦃m = plain_hmac⦄ ⦃r = plain_rfc3339⦄ ⦃h = flat_sha256⦄
              ⦃p = Listings.lenient_json⦄ ⦃t = Listings.size_tokenizer⦄ ⦃k = flat_encoder⦄
              ⦃v = flat_encoder⦄ ⦃e = flat_encoder⦄ ⦃urls = https_parser⦄ ⦃n = flat_encoder⦄
              ⦃d = Services.listing_decoder⦄ ⦃b = flat_encoder⦄ handler
              (some Services.lister)
              hello
              at_1000
              Listings.now
              Listings.now
              Services.calm
              []
              0).2)
handle_discover_resources-Asked_example =
    handle_discover_resources-Asked ⦃m = plain_hmac⦄ ⦃r = plain_rfc3339⦄ ⦃h = flat_sha256⦄
      ⦃p = Listings.lenient_json⦄ ⦃t = Listings.size_tokenizer⦄ ⦃k = flat_encoder⦄
      ⦃v = flat_encoder⦄ ⦃e = flat_encoder⦄ ⦃urls = https_parser⦄ ⦃n = flat_encoder⦄
      ⦃d = Services.listing_decoder⦄ ⦃b = flat_encoder⦄ handler (some Services.lister) Listings.now
      Listings.now Services.calm hello at_1000 [] 0
