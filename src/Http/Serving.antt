-- ===== src/Http/Serving.antt =====
-- When a handler calls the implementation.
use provider_sdk.Http.{Clock, Handler, Hmac, HttpRequest, Rfc3339, Seen, authenticate}
use provider_sdk.Http.Handlers.{serve, serve_body, serve_decoded}
use provider_sdk.Base.{
  Bool-cases, Check, Option, Result, String, arith, eq_iff, err, hang, inl, inr, list_eq, nat_eq,
  none, ok, panic, refl, some, ℕ, ◌==◌, ◌≡◌, ◌⊎◌,
}
use provider_sdk.Platform.{Decoder, Encoder, decode_strict}
use provider_sdk.Text.{Text}
use provider_sdk.Selection.{selector_eq}

module _ ⦃m : Hmac⦄ ⦃p : Rfc3339⦄ {W A B : Type 0} ⦃d : Decoder A⦄ ⦃e : Encoder B⦄ (h : Handler)
    (release : A → Text) (call : W → A → Result B × W) (check : B → Check)
    (complaint : String) where
  -- The implementation was called, once, with what the body of an authentic request decodes to.
  abbrev pub Called : Option (Text × Text) → W → W → Type 0
  Called accepted w w' =
      (body : Text) × (nonce : Text) × (request : A) × (accepted ≡ some (body, nonce))
      × (decode_strict body ≡ ok request)
      × (release request ≡ h.release)
      × (w' ≡ (call w request).1)

  decoded_world :
      (nonce : Text) (now : ℕ) (q : Result A) (w : W)
      → ((serve_decoded h release call check complaint nonce now q w).1 ≡ w)
        ⊎ ((request : A) × (q ≡ ok request)
            × (release request ≡ h.release)
            × ((serve_decoded h release call check complaint nonce now q w).1 ≡ (call w request).1))
  unfolding serve_decoded
  decoded_world nonce now (ok request) w =
      let same = eq_iff (release request) h.release in
      elim (Bool-cases (release request == h.release)) [
        | inl e ↦ inr (request, refl, same.0 e, ground arith)
        | inr e ↦ inl (ground arith)
      ]
  decoded_world nonce now (err message) w = inl refl
  decoded_world nonce now panic w = inl refl
  decoded_world nonce now hang w = inl refl

  body_world :
      (now : ℕ) (accepted : Option (Text × Text)) (w : W)
      → ((serve_body h release call check complaint now accepted w).1 ≡ w)
        ⊎ Called accepted w (serve_body h release call check complaint now accepted w).1
  unfolding serve_body
  body_world now none w = inl refl
  body_world now (some (body, nonce)) w = elim (decoded_world nonce now (decode_strict body) w) [
    | inl same ↦ inl same
    | inr (request, decoded, ours, then') ↦ inr (body, nonce, request, refl, decoded, ours, then')
  ]

-- A handler leaves the implementation's state alone, or it authenticated the request, decoded its
-- body without remainder to a request for its own release, and called the implementation once on it.
pub serve-Called :
    ⦃m : Hmac⦄ ⦃p : Rfc3339⦄ {W A B : Type 0} ⦃d : Decoder A⦄ ⦃e : Encoder B⦄ (h : Handler)
    (release : A → Text) (call : W → A → Result B × W) (check : B → Check) (complaint : String)
    (r : HttpRequest) (c : Clock) (now : ℕ) (seen : Seen) (w : W)
    → ((serve h release call check complaint r c now seen w).2 ≡ w)
      ⊎ Called h release call check complaint
          (authenticate h r c seen).0
          w
          (serve h release call check complaint r c now seen w).2
unfolding serve
serve-Called h release call check complaint r c now seen w =
    body_world h release call check complaint now (authenticate h r c seen).0 w
