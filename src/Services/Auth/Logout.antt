-- ===== src/Services/Auth/Logout.antt =====
-- `AuthService.logout` and `AuthService.logout_all`.
use parcel_delivery_api.Base.{
  ℕ, ◌≡◌, refl, ap, ◌∙◌, String, true, false, none, some, arith, ◌==◌, eq_refl, is_some, Bool-cases,
  inl, inr, not,
}
use parcel_delivery_api.Base.Rows.{All}
use parcel_delivery_api.Base.Rows.Members.{All-of_Has}
use parcel_delivery_api.Core.Exceptions.{unauthorized_error}
use parcel_delivery_api.Core.Action.{ok, raised}
use parcel_delivery_api.Core.Settings.{Settings}
use parcel_delivery_api.Core.Crypto.{Crypto}
use parcel_delivery_api.Core.Security.{Draw, hash_token}
use parcel_delivery_api.Db.Sql.{Sql}
use parcel_delivery_api.Db.Laws.{scalar-update, All-update}
use parcel_delivery_api.Models.RefreshToken.{RefreshToken}
use parcel_delivery_api.Models.Database.{Database}
use parcel_delivery_api.Services.Auth.{
  has_hash, has_jti, revoke, live_of_user, update_tokens, refresh, logout, logout_all,
}
use parcel_delivery_api.Services.Auth.Refresh.{IsRevoked, refresh_revoked}

module _ (sql : Sql) (crypto : Crypto) (settings : Settings) where
  open sql use {rows, scalar}

  logout_live :
      (raw : String) (now : ℕ) (s : Database sql) (t : RefreshToken)
      → scalar (has_hash (hash_token crypto raw)) s.refresh_tokens ≡ some t
      → is_some t.revoked_at ≡ false
      → logout sql crypto settings raw now s
        ≡ (ok tt, update_tokens sql (has_jti t.jti) (revoke now) s)
  unfolding logout
  logout_live raw now s t h live = ground (arith, h, live)

  logout_dead :
      (raw : String) (now : ℕ) (s : Database sql) (t : RefreshToken)
      → scalar (has_hash (hash_token crypto raw)) s.refresh_tokens ≡ some t
      → is_some t.revoked_at ≡ true
      → logout sql crypto settings raw now s ≡ (ok tt, s)
  unfolding logout
  logout_dead raw now s t h dead = ground (arith, h, dead)

  revoked_by_logout :
      (now : ℕ) (s : Database sql) (t : RefreshToken) (hash : String)
      → scalar (has_hash hash) s.refresh_tokens ≡ some t
      → scalar (has_hash hash) (update_tokens sql (has_jti t.jti) (revoke now) s).refresh_tokens
        ≡ some (revoke now t)
  revoked_by_logout now s t hash h =
      scalar-update sql (has_hash hash) (has_jti t.jti) (revoke now) s.refresh_tokens (λ x. refl)
      ∙ rw (h, eq_refl t.jti) refl

  -- After a logout of a stored token, live or not, a refresh with the same raw value is refused, at
  -- any time and whatever is drawn for it. A raw value that is not stored is refused by the logout.
  pub logout_ends_token :
      (raw : String) (now now2 : ℕ) (draw : Draw) (s : Database sql)
      → let (r, s') = logout sql crypto settings raw now s in
        (scalar (has_hash (hash_token crypto raw)) s.refresh_tokens ≡ none
          → logout sql crypto settings raw now s
            ≡ (raised (unauthorized_error "Invalid refresh token"), s))
        × ((t : RefreshToken)
            → scalar (has_hash (hash_token crypto raw)) s.refresh_tokens ≡ some t
            → (r ≡ ok tt)
              × ((refresh sql crypto settings raw now2 draw s').0
                  ≡ raised (unauthorized_error "Invalid refresh token")))
  logout_ends_token raw now now2 draw s = (
    λ e. unfold logout in ground (arith, e),
    λ t e. elim (Bool-cases (is_some t.revoked_at)) [
      | inl dead ↦ rw (logout_dead raw now s t e dead) (
        refl,
        ap (λ q. q.0) (refresh_revoked sql crypto settings raw now2 draw s t e (ap not dead)),
      )
      | inr live ↦ rw (logout_live raw now s t e live) (
        refl,
        ap (λ q. q.0)
            (refresh_revoked sql crypto settings raw now2 draw
              (update_tokens sql (has_jti t.jti) (revoke now) s) (revoke now t)
              (revoked_by_logout now s t (hash_token crypto raw) e) refl),
      )
    ],
  )

  -- `logout_all` succeeds, leaves no live token of the user, and keeps the row of every token of
  -- another user as it was.
  pub logout_all_revokes :
      (user_id : String) (now : ℕ) (s : Database sql)
      → let (r, s') = logout_all sql crypto settings user_id now s in
        (r ≡ ok tt)
        × All (λ x. (x.user_id == user_id) ≡ true → IsRevoked x) (rows s'.refresh_tokens)
        × ((hash : String) (x : RefreshToken)
            → scalar (has_hash hash) s.refresh_tokens ≡ some x
            → (x.user_id == user_id) ≡ false
            → scalar (has_hash hash) s'.refresh_tokens ≡ some x)
  unfolding logout_all
  logout_all_revokes user_id now s = (
    refl,
    All-update sql (λ x. Unit) (λ x. (x.user_id == user_id) ≡ true → IsRevoked x)
        (live_of_user user_id) (revoke now) s.refresh_tokens (λ x hit p e. refl)
        (λ x miss p e. ground (arith, miss, e))
        (All-of_Has (λ x. Unit) (rows s.refresh_tokens) (λ x m. tt)),
    λ hash x h e.
        scalar-update sql (has_hash hash) (live_of_user user_id) (revoke now) s.refresh_tokens
          (λ y. refl)
        ∙ rw (h, e) refl,
  )
