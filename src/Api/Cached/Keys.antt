-- ===== src/Api/Cached/Keys.antt =====
-- Whose entry a cache key names, and what is read at it.
use text.Mathlib.TextLemmas.{append_cancel_left}
use parcel_delivery_api.Base.{
  ℕ, ◌+◌, ◌≤◌, ◌≡◌, inl, inr, refl, sym, ap, ◌∙◌, String, Bool-cases, Option-cases, true, Option,
  none, some, arith, ltb, ltb→lt, ltb→le, [], ◌∷◌,
}
use parcel_delivery_api.Core.Exceptions.{Failure}
use parcel_delivery_api.Core.Action.{Result, ok, raised}
use parcel_delivery_api.Core.Settings.{Settings}
use parcel_delivery_api.Core.Crypto.{Crypto, Payload}
use parcel_delivery_api.Core.Security.{claims_of, decode_token}
use parcel_delivery_api.Core.Text.Search.{first_chars}
use parcel_delivery_api.Tasks.Redis.{Redis}
use parcel_delivery_api.Api.Http.{HttpRequest, given}
use parcel_delivery_api.Api.Deps.{bearer_claims, get_owner_id, subject, claims_or_error}
use parcel_delivery_api.Api.Cache.{KeyText, or_anon, identity, make_cache_key}
use parcel_delivery_api.Api.Cached.{Bearer, KeyLaws, OnePayload, owner_of}

ok-inj : (o o' : String) → ◌≡◌ {A = Result String} (ok o) (ok o') → o ≡ o'
ok-inj o o' h = ground (arith, h)

pub some-inj : (a b : String) → ◌≡◌ {A = Option String} (some a) (some b) → a ≡ b
some-inj a b h = ground (arith, h)

module _ {A : Type 0} where
  pub ok_inj : (a b : A) → ◌≡◌ {A = Result A} (ok a) (ok b) → a ≡ b
  ok_inj a b h = ground (arith, h)

  pub raised-ne : (e : Failure) (a : A) → ◌≡◌ {A = Result A} (raised e) (ok a) → ⊥
  raised-ne e a h = ground (arith, h)

pub given-some : (o : Option String) (s : String) → given o ≡ some s → o ≡ some s
given-some none s h = ground (arith, h)
given-some (some t) s h = ground (arith, h)

module _ (redis : Redis) where
  -- What is read at a key after it was set with a lifetime is what was set.
  pub stored_text :
      (k v raw : String) (ttl stored_at t : ℕ) (r : redis.State)
      → stored_at ≤ t
      → redis.get k t (redis.set k v (some ttl) stored_at r) ≡ some raw
      → v ≡ raw
  stored_text k v raw ttl stored_at t r le g = elim (Bool-cases (ltb t (stored_at + ttl))) [
    | inl b ↦
        some-inj v raw
          (sym (redis.get-set_within k v ttl stored_at t r le (ltb→lt t (stored_at + ttl) b)) ∙ g)
    | inr b ↦
        let gone = redis.get-set_past k v ttl stored_at t r (ltb→le t (stored_at + ttl) b) in
        ground (arith, gone, g)
  ]

module _ (bearer : Bearer) where
  token-or_anon : (h h' : Option String) → or_anon h ≡ or_anon h' → bearer.token h ≡ bearer.token h'
  token-or_anon none none e = refl
  token-or_anon none (some s) e =
      bearer.token-none ∙ sym (ap (λ x. bearer.token (some x)) (sym e) ∙ bearer.token-anon)
  token-or_anon (some s) none e =
      ap (λ x. bearer.token (some x)) e ∙ bearer.token-anon ∙ sym bearer.token-none
  token-or_anon (some s) (some s') e = ap (λ x. bearer.token (some x)) e

module _ (crypto : Crypto) (settings : Settings) (bearer : Bearer)
    (jwt : settings.auth_required ≡ true) where
  abbrev subject_of : Option String → ℕ → Result String
  subject_of token now =
      subject crypto settings (bearer_claims crypto settings ("parcels:read" ∷ []) token now)

  -- In JWT mode the owner is the subject of the token.
  owner_of-token :
      (request : HttpRequest) (now : ℕ)
      → owner_of crypto settings bearer request now
        ≡ subject_of (bearer.token (request.headers "Authorization")) now
  unfolding get_owner_id
  owner_of-token request now = rw jwt refl

  abbrev subject_of_payload : Payload → Result String
  subject_of_payload p =
      subject crypto settings
        (claims_or_error crypto settings (claims_of crypto settings ("parcels:read" ∷ []) p))

  subject_of-decoded :
      (token : Option String) (t : String) (p : Payload) (now : ℕ)
      → given token ≡ some t
      → crypto.jwt_decode t settings.jwt_secret_key settings.jwt_algorithm settings.jwt_issuer
          settings.jwt_audience now
        ≡ some p
      → subject_of token now ≡ subject_of_payload p
  unfolding bearer_claims decode_token
  subject_of-decoded token t p now e d = rw (bearer_claims, e, decode_token, d) refl

  one_subject :
      OnePayload crypto
      → (token : Option String) (now now' : ℕ) (o o' : String) → subject_of token now ≡ ok o
      → subject_of token now' ≡ ok o'
      → o ≡ o'
  unfolding bearer_claims decode_token
  one_subject one token now now' o o' h h' = elim (Option-cases (given token)) [
    | inl e ↦ ground (arith, e, h)
    | inr (t, e) ↦
        let decoded = λ (n : ℕ).
          crypto.jwt_decode t settings.jwt_secret_key settings.jwt_algorithm settings.jwt_issuer
            settings.jwt_audience n in
        elim (Option-cases (decoded now)) [
          | inl d ↦ ground (arith, e, d, h)
          | inr (p, d) ↦ elim (Option-cases (decoded now')) [
            | inl d' ↦ ground (arith, e, d', h')
            | inr (p', d') ↦
                let same =
                  one t settings.jwt_secret_key settings.jwt_algorithm settings.jwt_issuer
                    settings.jwt_audience now now' p p' d d' in
                let a = subject_of-decoded token t p now e d in
                let b = subject_of-decoded token t p' now' e d' in
                ok-inj o o' (sym h ∙ a ∙ ap subject_of_payload same ∙ sym b ∙ h')
          ]
        ]
  ]

  pub one_owner :
      OnePayload crypto
      → (request : HttpRequest) (now now' : ℕ) (o o' : String)
      → owner_of crypto settings bearer request now ≡ ok o
      → owner_of crypto settings bearer request now' ≡ ok o'
      → o ≡ o'
  one_owner one request now now' o o' h h' =
      one_subject one (bearer.token (request.headers "Authorization")) now now' o o'
        (sym (owner_of-token request now) ∙ h) (sym (owner_of-token request now') ∙ h')

  pub same_owner :
      (request request' : HttpRequest) (now : ℕ)
      → bearer.token (request.headers "Authorization")
        ≡ bearer.token (request'.headers "Authorization")
      → owner_of crypto settings bearer request now ≡ owner_of crypto settings bearer request' now
  same_owner request request' now e =
      owner_of-token request now ∙ ap (λ t. subject_of t now) e ∙ sym (owner_of-token request' now)

  module _ (keys : KeyText) (Occurs : HttpRequest → String → String → Type 0)
      (laws : KeyLaws keys settings Occurs) where
    identity-jwt :
        (request : HttpRequest)
        → identity keys settings request
          ≡ first_chars 16 (keys.hexdigest (or_anon (request.headers "Authorization")))
    identity-jwt request = rw jwt refl

    -- Among the requests that occur, equal keys are those of one path and query, and of one token.
    pub key-inj :
        (prefix : String) (request request' : HttpRequest) (path path' query query' : String)
        → Occurs request path query
        → Occurs request' path' query'
        → make_cache_key keys settings prefix request path query
          ≡ make_cache_key keys settings prefix request' path' query'
        → (bearer.token (request.headers "Authorization")
            ≡ bearer.token (request'.headers "Authorization"))
          × (path ≡ path')
          × (query ≡ query')
    unfolding make_cache_key
    key-inj prefix request request' path path' query query' o o' h =
        let same_digest = append_cancel_left ":" _ _ (append_cancel_left prefix _ _ h) in
        let (i, p, q) =
          laws.raw_key_inj _ _ _ _ _ _
            (laws.digest_inj request request' path path' query query' o o' same_digest) in
        (
          token-or_anon bearer _ _ (
              laws.short_digest_inj request request' path path' query query' o o'
                (sym (identity-jwt request) ∙ i ∙ identity-jwt request')),
          p,
          q,
        )
