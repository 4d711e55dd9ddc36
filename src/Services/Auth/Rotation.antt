-- ===== src/Services/Auth/Rotation.antt =====
-- What a caller of `AuthService.refresh` relies on.
use parcel_delivery_api.Base.{
  ℕ, ◌+◌, ◌*◌, ◌==◌, if◌then◌else◌, ◌<◌, ◌≡◌, refl, sym, ap, ◌∙◌, String, none, some, arith,
  eq_refl, Option-cases, inl, inr,
}
use parcel_delivery_api.Core.Exceptions.{unauthorized_error}
use parcel_delivery_api.Core.Action.{ok, raised}
use parcel_delivery_api.Core.Settings.{Settings}
use parcel_delivery_api.Core.Crypto.{Crypto}
use parcel_delivery_api.Core.Security.{Draw, hash_token, create_access_token, default_user_scopes}
use parcel_delivery_api.Db.Sql.{Sql}
use parcel_delivery_api.Db.Laws.{scalar-update}
use parcel_delivery_api.Models.User.{User}
use parcel_delivery_api.Models.RefreshToken.{RefreshToken}
use parcel_delivery_api.Models.Database.{Database}
use parcel_delivery_api.Services.Auth.{
  AuthResult, has_hash, has_id, revoke, replace, new_token, auth_result, live_in_family, refresh,
  refresh_with, refresh_expires_at,
}
use parcel_delivery_api.Services.Auth.Refresh.{
  Usable, IsFresh, after_rotation, after_reuse, refresh_found, refresh-ok, refresh_revoked,
  after_rotation_tokens,
}

module _ (sql : Sql) (crypto : Crypto) (settings : Settings) where
  open sql use {rows, scalar}

  -- A usable refresh token, and new values that are not stored yet: `refresh` returns the token's user,
  -- an access token for that user's id and role (the default role where it is empty), the new raw
  -- value and the new CSRF value; the old raw value then names the old row, revoked at `now`, with the
  -- jti of its successor and otherwise as it was, and the new raw value names a row of the same
  -- family and user that is not revoked and expires the configured number of days after `now`.
  pub refresh_rotates :
      (raw : String) (now : ℕ) (draw : Draw) (s : Database sql) (t : RefreshToken) (u : User)
      → Usable sql crypto settings raw now s t u
      → IsFresh sql crypto settings draw s
      → let (r, s') = refresh sql crypto settings raw now draw s in
        let role = if u.role == "" then "user" else u.role in
        (r
          ≡ ok (record {
            user = u;
            access_token =
                create_access_token crypto settings u.id role default_user_scopes now
                  draw.access_jti;
            refresh_token = draw.raw_token;
            csrf_token = draw.csrf_token;
          }))
        × (scalar (has_hash (hash_token crypto raw)) s'.refresh_tokens
            ≡ some (record t { revoked_at = some now; replaced_by_jti = some draw.jti }))
        × (scalar (has_hash (hash_token crypto draw.raw_token)) s'.refresh_tokens
            ≡ some (record {
              jti = draw.jti;
              user_id = u.id;
              token_hash = hash_token crypto draw.raw_token;
              family_id = t.family_id;
              expires_at = now + settings.jwt_refresh_token_expire_days * 86400;
              revoked_at = none;
              replaced_by_jti = none;
              created_at = now;
            }))
  unfolding refresh_expires_at
  refresh_rotates raw now draw s t u h f =
      let tokens = after_rotation_tokens sql crypto settings raw now draw s t u h f in
      rw (refresh-ok sql crypto settings raw now draw s t u h f) (refl, tokens.0, tokens.1)

  -- Once the token is read, only a live and unexpired one with a user gives a result.
  refresh_with_only_usable :
      (now : ℕ) (draw : Draw) (s : Database sql) (t : RefreshToken) (a : AuthResult)
      → (refresh_with sql crypto settings t now draw s).0 ≡ ok a
      → (u : User) × (t.revoked_at ≡ none)
        × (now < t.expires_at)
        × (scalar (has_id t.user_id) s.users ≡ some u)
        × (a ≡ auth_result sql crypto settings u now draw)
  unfolding refresh_with
  refresh_with_only_usable now draw s t a h =
      elim (Option-cases (scalar (has_id t.user_id) s.users)) [
        | inl e ↦ absurd (ground arith)
        | inr (u, e) ↦ (u, ground arith, ground arith, e, ground arith)
      ]

  -- `refresh` returns credentials only for a token that is stored, live and not expired, and whose
  -- user exists; they are that user's.
  pub refresh_only-Usable :
      (raw : String) (now : ℕ) (draw : Draw) (s : Database sql) (a : AuthResult)
      → (refresh sql crypto settings raw now draw s).0 ≡ ok a
      → (t : RefreshToken) × (u : User) × Usable sql crypto settings raw now s t u
        × (a ≡ auth_result sql crypto settings u now draw)
  refresh_only-Usable raw now draw s a h =
      elim (Option-cases (scalar (has_hash (hash_token crypto raw)) s.refresh_tokens)) [
        | inl e ↦ absurd (unfold refresh in ground arith)
        | inr (t, e) ↦
            let (u, live, unexpired, owner, same) =
              refresh_with_only_usable now draw s t a
                (sym (ap (λ q. q.0) (refresh_found sql crypto settings raw now draw s t e)) ∙ h) in
            (t, u, record { found = e; live = live; unexpired = unexpired; owner = owner }, same)
      ]

  successor_revoked :
      (later : ℕ) (draw : Draw) (s : Database sql) (t : RefreshToken) (u : User) (now : ℕ)
      → scalar (has_hash (hash_token crypto draw.raw_token)) s.refresh_tokens
        ≡ some (new_token sql crypto settings u t.family_id now draw)
      → scalar
          (has_hash (hash_token crypto draw.raw_token))
          (after_reuse sql s t later).refresh_tokens
        ≡ some (revoke later (new_token sql crypto settings u t.family_id now draw))
  successor_revoked later draw s t u now e =
      scalar-update sql (has_hash (hash_token crypto draw.raw_token)) (live_in_family t.family_id)
        (revoke later) s.refresh_tokens (λ x. refl)
      ∙ rw (e, eq_refl t.family_id) refl

  -- Two requests with one raw value, one after the other: the first rotates the token, the second
  -- is refused as a reuse, and after it the successor that the first returned is refused too.
  pub replay_revokes_successor :
      (raw : String) (now now2 now3 : ℕ) (draw draw2 draw3 : Draw) (s : Database sql)
      (t : RefreshToken) (u : User)
      → Usable sql crypto settings raw now s t u
      → IsFresh sql crypto settings draw s
      → let s1 = (refresh sql crypto settings raw now draw s).1 in
        let (r2, s2) = refresh sql crypto settings raw now2 draw2 s1 in
        let (r3, s3) = refresh sql crypto settings draw.raw_token now3 draw3 s2 in
        (r2 ≡ raised (unauthorized_error "Invalid refresh token"))
        × (r3 ≡ raised (unauthorized_error "Invalid refresh token"))
  replay_revokes_successor raw now now2 now3 draw draw2 draw3 s t u h f =
      let (old, new) = after_rotation_tokens sql crypto settings raw now draw s t u h f in
      let s1 = after_rotation sql crypto settings s t u now draw in
      let e = refresh-ok sql crypto settings raw now draw s t u h f in
      let e2 =
        refresh_revoked sql crypto settings raw now2 draw2 s1 (replace now draw.jti t) old refl in
      let spent = after_reuse sql s1 (replace now draw.jti t) now2 in
      let gone = successor_revoked now2 draw s1 (replace now draw.jti t) u now new in
      let e3 =
        refresh_revoked sql crypto settings draw.raw_token now3 draw3 spent
          (revoke now2 (new_token sql crypto settings u t.family_id now draw)) gone refl in
      rw e (rw e2 (refl, ap (λ q. q.0) e3))
