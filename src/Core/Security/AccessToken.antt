-- ===== src/Core/Security/AccessToken.antt =====
-- Access tokens: what `decode_token` makes of a token of `create_access_token`.
use parcel_delivery_api.Base.{
  ℕ, ◌+◌, ◌*◌, ◌≤◌, ◌<◌, ◌≡◌, refl, ◌∙◌, sym, String, true, Option, none, some, List, arith,
  if◌then◌else◌, Option-cases, inl, inr,
}
use parcel_delivery_api.Base.Rows.{All}
use parcel_delivery_api.Core.Settings.{Settings}
use parcel_delivery_api.Core.Crypto.{Crypto, CryptoLaws, Payload}
use parcel_delivery_api.Core.Text.{includes}
use parcel_delivery_api.Core.Text.RoundTrip.{IsWord, split-join}
use parcel_delivery_api.Core.Security.{
  TokenClaims, access_payload, create_access_token, claims_of, decode_token,
}

module _ (crypto : Crypto) (settings : Settings) where
  claims_of-access_payload :
      (subject role : String) (scopes : List String) (now : ℕ) (jti : String)
      (required : List String)
      → All IsWord scopes
      → claims_of crypto settings required
          (access_payload crypto settings subject role scopes now jti)
        ≡ (if includes scopes required
            then some (record {
              sub = subject;
              jti = jti;
              iss = settings.jwt_issuer;
              aud = settings.jwt_audience;
              role = role;
              scopes = scopes;
            })
            else none)
  unfolding claims_of
  claims_of-access_payload subject role scopes now jti required w = rw (split-join scopes w) refl

  decoded : String → ℕ → Option Payload
  decoded token now =
      crypto.jwt_decode token settings.jwt_secret_key settings.jwt_algorithm settings.jwt_issuer
        settings.jwt_audience now

  decode_token-some :
      (token : String) (required : List String) (now : ℕ) (p : Payload)
      → decoded token now ≡ some p
      → decode_token crypto settings token required now ≡ claims_of crypto settings required p
  unfolding decode_token decoded
  decode_token-some token required now p h = ground (arith, h)

  decode_token-none :
      (token : String) (required : List String) (now : ℕ)
      → decoded token now ≡ none
      → decode_token crypto settings token required now ≡ none
  unfolding decode_token decoded
  decode_token-none token required now h = ground (arith, h)

  -- From its issue until it expires, the configured number of minutes later, a token that the
  -- service made decodes to the subject, role and scopes that it was made for, if these include the
  -- required scopes, and is refused if not. The scopes are words: not empty and with no space.
  pub decode_created :
      CryptoLaws crypto
      → (subject role : String) (scopes : List String) (issued now : ℕ) (jti : String)
        (required : List String)
      → All IsWord scopes
      → issued ≤ now
      → now < issued + settings.jwt_access_token_expire_min * 60
      → decode_token crypto settings
          (create_access_token crypto settings subject role scopes issued jti)
          required
          now
        ≡ (if includes scopes required
            then some (record {
              sub = subject;
              jti = jti;
              iss = settings.jwt_issuer;
              aud = settings.jwt_audience;
              role = role;
              scopes = scopes;
            })
            else none)
  unfolding decoded create_access_token
  decode_created laws subject role scopes issued now jti required w le lt =
      let payload = access_payload crypto settings subject role scopes issued jti in
      decode_token-some (create_access_token crypto settings subject role scopes issued jti)
        required now payload
        (laws.decode-encode payload settings.jwt_secret_key settings.jwt_algorithm
          settings.jwt_issuer settings.jwt_audience now
          (issued + settings.jwt_access_token_expire_min * 60) issued issued subject jti refl refl
          refl refl refl refl refl le le lt)
      ∙ (claims_of-access_payload subject role scopes issued jti required w)

  -- Once the configured lifetime is over the token is refused, whatever scopes are required.
  pub decode_expired_token :
      CryptoLaws crypto
      → (subject role : String) (scopes : List String) (issued now : ℕ) (jti : String)
        (required : List String)
      → issued + settings.jwt_access_token_expire_min * 60 ≤ now
      → decode_token crypto settings
          (create_access_token crypto settings subject role scopes issued jti)
          required
          now
        ≡ none
  unfolding decoded create_access_token
  decode_expired_token laws subject role scopes issued now jti required late =
      decode_token-none (create_access_token crypto settings subject role scopes issued jti)
        required now
        (laws.decode_expired (access_payload crypto settings subject role scopes issued jti)
          settings.jwt_secret_key settings.jwt_algorithm settings.jwt_issuer settings.jwt_audience
          now (issued + settings.jwt_access_token_expire_min * 60) refl late)

  claims_of-includes :
      (required : List String) (p : Payload) (c : TokenClaims)
      → claims_of crypto settings required p ≡ some c
      → includes c.scopes required ≡ true
  unfolding claims_of
  claims_of-includes required p c h = ground arith

  -- Whatever the token, claims that `decode_token` returns contain every required scope.
  pub decode_token-includes :
      (token : String) (required : List String) (now : ℕ) (c : TokenClaims)
      → decode_token crypto settings token required now ≡ some c
      → includes c.scopes required ≡ true
  decode_token-includes token required now c h = elim (Option-cases (decoded token now)) [
    | inl e ↦ absurd (ground (arith, decode_token-none token required now e))
    | inr (p, e) ↦
        claims_of-includes required p c (sym (decode_token-some token required now p e) ∙ h)
  ]
