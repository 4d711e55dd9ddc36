-- ===== src/Services/Auth/Refresh.antt =====
-- `AuthService.refresh`, branch by branch.
use parcel_delivery_api.Base.{
  ℕ, ◌<◌, ◌≡◌, refl, sym, ◌∙◌, String, true, false, none, some, arith, ◌==◌, eq_refl, eq_iff,
  lt→leb, Bool-cases, inl, inr,
}
use parcel_delivery_api.Base.Rows.{All, none_of}
use parcel_delivery_api.Base.Rows.Members.{All-of_Has, Has-none_of}
use mathlib.Core.Bool.{true≢false as true≢false'}
use parcel_delivery_api.Core.Exceptions.{unauthorized_error}
use parcel_delivery_api.Core.Action.{ok, raised}
use parcel_delivery_api.Core.Settings.{Settings}
use parcel_delivery_api.Core.Crypto.{Crypto}
use parcel_delivery_api.Core.Security.{Draw, hash_token}
use parcel_delivery_api.Db.Sql.{Sql}
use parcel_delivery_api.Db.Laws.{
  scalar-true, scalar-Has, scalar-add, scalar-add_skip, scalar-update, none_of-update, All-update,
}
use parcel_delivery_api.Models.User.{User}
use parcel_delivery_api.Models.RefreshToken.{RefreshToken, accepts_refresh_token}
use parcel_delivery_api.Models.Database.{Database}
use parcel_delivery_api.Services.Auth.{
  has_hash, has_jti, has_id, is_live, revoke, replace, live_in_family, new_token, auth_result,
  update_tokens, refresh, refresh_with,
}

abbrev pub IsRevoked : RefreshToken → Type 0
IsRevoked t = is_live t ≡ false

module _ (sql : Sql) where
  abbrev pub after_reuse : Database sql → RefreshToken → ℕ → Database sql
  after_reuse s t now = update_tokens sql (live_in_family t.family_id) (revoke now) s

module _ (sql : Sql) (crypto : Crypto) (settings : Settings) where
  open sql use {rows, scalar, add, update}

  -- The token that a raw value names is live at `now`, and its user `u` exists.
  pub record Usable (raw : String) (now : ℕ) (s : Database sql) (t : RefreshToken) (u : User)
      : Type 0 where
    pub found : scalar (has_hash (hash_token crypto raw)) s.refresh_tokens ≡ some t
    pub live : t.revoked_at ≡ none
    pub unexpired : now < t.expires_at
    pub owner : scalar (has_id t.user_id) s.users ≡ some u

  -- Neither the new jti nor the hash of the new raw value is stored.
  pub record IsFresh (draw : Draw) (s : Database sql) : Type 0 where
    pub jti : none_of (has_jti draw.jti) (rows s.refresh_tokens) ≡ true
    pub hash : none_of (has_hash (hash_token crypto draw.raw_token)) (rows s.refresh_tokens) ≡ true

  abbrev pub after_rotation : Database sql → RefreshToken → User → ℕ → Draw → Database sql
  after_rotation s t u now draw = record s {
    refresh_tokens =
        add (new_token sql crypto settings u t.family_id now draw)
          (update (has_jti t.jti) (replace now draw.jti) s.refresh_tokens);
  }

  pub owner_exists :
      (s : Database sql) (i : String) (u : User)
      → scalar (has_id i) s.users ≡ some u
      → none_of (has_id u.id) (rows s.users) ≡ false
  owner_exists s i u h =
      Has-none_of (has_id u.id) (rows s.users) u (scalar-Has sql (has_id i) s.users u h)
        (eq_refl u.id)

  accepts_rotated :
      (now : ℕ) (draw : Draw) (s : Database sql) (t : RefreshToken) (u : User)
      → scalar (has_id t.user_id) s.users ≡ some u
      → IsFresh draw s
      → accepts_refresh_token
          (rows s.users)
          (rows (update (has_jti t.jti) (replace now draw.jti) s.refresh_tokens))
          (new_token sql crypto settings u t.family_id now draw)
        ≡ true
  accepts_rotated now draw s t u h f =
      let tokens = s.refresh_tokens in
      ground (
        arith,
        f.jti,
        f.hash,
        owner_exists s t.user_id u h,
        none_of-update sql (has_jti draw.jti) (has_jti t.jti) (replace now draw.jti) tokens
            (λ x. refl),
        none_of-update sql (has_hash (hash_token crypto draw.raw_token)) (has_jti t.jti)
            (replace now draw.jti) tokens (λ x. refl),
      )

  -- What `refresh` does once it has read a token that is usable.
  pub refresh_with-ok :
      (now : ℕ) (draw : Draw) (s : Database sql) (t : RefreshToken) (u : User)
      → t.revoked_at ≡ none
      → now < t.expires_at
      → scalar (has_id t.user_id) s.users ≡ some u
      → IsFresh draw s
      → refresh_with sql crypto settings t now draw s
        ≡ (ok (auth_result sql crypto settings u now draw), after_rotation s t u now draw)
  unfolding refresh_with
  refresh_with-ok now draw s t u live unexpired owner f = ground (
    arith,
    live,
    owner,
    lt→leb t.expires_at now unexpired,
    accepts_rotated now draw s t u owner f,
  )

  pub refresh_found :
      (raw : String) (now : ℕ) (draw : Draw) (s : Database sql) (t : RefreshToken)
      → scalar (has_hash (hash_token crypto raw)) s.refresh_tokens ≡ some t
      → refresh sql crypto settings raw now draw s ≡ refresh_with sql crypto settings t now draw s
  unfolding refresh
  refresh_found raw now draw s t h = ground (arith, h)

  pub refresh-ok :
      (raw : String) (now : ℕ) (draw : Draw) (s : Database sql) (t : RefreshToken) (u : User)
      → Usable raw now s t u
      → IsFresh draw s
      → refresh sql crypto settings raw now draw s
        ≡ (ok (auth_result sql crypto settings u now draw), after_rotation s t u now draw)
  refresh-ok raw now draw s t u h f =
      refresh_found raw now draw s t h.found
      ∙ refresh_with-ok now draw s t u h.live h.unexpired h.owner f

  fresh_hash_ne :
      (raw : String) (draw : Draw) (s : Database sql) (t : RefreshToken)
      → scalar (has_hash (hash_token crypto raw)) s.refresh_tokens ≡ some t
      → IsFresh draw s
      → (hash_token crypto draw.raw_token == hash_token crypto raw) ≡ false
  fresh_hash_ne raw draw s t h f =
      let m = scalar-Has sql (has_hash (hash_token crypto raw)) s.refresh_tokens t h in
      let e = scalar-true sql (has_hash (hash_token crypto raw)) s.refresh_tokens t h in
      elim (Bool-cases (hash_token crypto draw.raw_token == hash_token crypto raw)) [
        | inl same ↦ absurd (
            true≢false' (
              sym f.hash
              ∙ Has-none_of (has_hash (hash_token crypto draw.raw_token)) (rows s.refresh_tokens) t
                  m
                  (ground (
                    arith,
                    same,
                    e,
                    eq_iff (hash_token crypto draw.raw_token) (hash_token crypto raw),
                  ))))
        | inr differ ↦ differ
      ]

  -- After a rotation the raw value that was presented names the old row, revoked and with the jti
  -- of its successor, and the value that was returned names a live row of the same family and user.
  pub after_rotation_tokens :
      (raw : String) (now : ℕ) (draw : Draw) (s : Database sql) (t : RefreshToken) (u : User)
      → Usable raw now s t u
      → IsFresh draw s
      → let s' = after_rotation s t u now draw in
        (scalar (has_hash (hash_token crypto raw)) s'.refresh_tokens
          ≡ some (replace now draw.jti t))
        × (scalar (has_hash (hash_token crypto draw.raw_token)) s'.refresh_tokens
            ≡ some (new_token sql crypto settings u t.family_id now draw))
  after_rotation_tokens raw now draw s t u h f =
      let tokens = s.refresh_tokens in
      let new = new_token sql crypto settings u t.family_id now draw in
      let updated = update (has_jti t.jti) (replace now draw.jti) tokens in
      (
        scalar-add_skip sql (has_hash (hash_token crypto raw)) new updated
              (fresh_hash_ne raw draw s t h.found f)
            ∙ scalar-update sql (has_hash (hash_token crypto raw)) (has_jti t.jti)
                (replace now draw.jti) tokens (λ x. refl)
            ∙ rw (h.found, eq_refl),
        scalar-add sql (has_hash (hash_token crypto draw.raw_token)) new updated
            (eq_refl (hash_token crypto draw.raw_token))
            (none_of-update sql (has_hash (hash_token crypto draw.raw_token)) (has_jti t.jti)
                (replace now draw.jti) tokens (λ x. refl)
              ∙ f.hash),
      )

  -- A token that is no longer live gives an error and the revocation of its family.
  pub refresh_revoked :
      (raw : String) (now : ℕ) (draw : Draw) (s : Database sql) (t : RefreshToken)
      → scalar (has_hash (hash_token crypto raw)) s.refresh_tokens ≡ some t
      → IsRevoked t
      → refresh sql crypto settings raw now draw s
        ≡ (raised (unauthorized_error "Invalid refresh token"), after_reuse sql s t now)
  unfolding refresh
  refresh_revoked raw now draw s t h r = ground (arith, h, r)

  -- The revocation of a family leaves no live token in it.
  pub after_reuse-IsRevoked :
      (s : Database sql) (t : RefreshToken) (now : ℕ)
      → All
          (λ x. (x.family_id == t.family_id) ≡ true → IsRevoked x)
          (rows (after_reuse sql s t now).refresh_tokens)
  after_reuse-IsRevoked s t now =
      All-update sql (λ x. Unit) (λ x. (x.family_id == t.family_id) ≡ true → IsRevoked x)
        (live_in_family t.family_id) (revoke now) s.refresh_tokens (λ x hit p e. refl)
        (λ x miss p e. ground (arith, miss, e))
        (All-of_Has (λ x. Unit) (rows s.refresh_tokens) (λ x m. tt))

  -- The revocation of a family keeps every token of another one as it was.
  pub after_reuse_others :
      (s : Database sql) (t x : RefreshToken) (now : ℕ) (hash : String)
      → scalar (has_hash hash) s.refresh_tokens ≡ some x
      → (x.family_id == t.family_id) ≡ false
      → scalar (has_hash hash) (after_reuse sql s t now).refresh_tokens ≡ some x
  after_reuse_others s t x now hash h e =
      scalar-update sql (has_hash hash) (live_in_family t.family_id) (revoke now) s.refresh_tokens
        (λ y. refl)
      ∙ rw (h, e) refl
