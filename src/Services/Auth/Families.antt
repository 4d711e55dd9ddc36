-- ===== src/Services/Auth/Families.antt =====
-- A token family has one live token at most, so long as a login draws a family that is not in use
-- and requests run one after another. Race shows that the second condition is needed.
use parcel_delivery_api.Base.{
  ℕ, ◌≤◌, ◌≡◌, refl, String, Bool, true, false, List, arith, ◌==◌, eq_iff, eq_refl, Bool-cases, inl,
  inr,
}
use parcel_delivery_api.Base.Rows.{Has, none_of, count}
use parcel_delivery_api.Base.Rows.Counts.{none_of-count}
use parcel_delivery_api.Core.Action.Keeps.{Written}
use parcel_delivery_api.Core.Settings.{Settings}
use parcel_delivery_api.Core.Crypto.{Crypto}
use parcel_delivery_api.Core.Security.{Draw}
use parcel_delivery_api.Db.Sql.{Sql}
use parcel_delivery_api.Db.Laws.{count-add, count-update-le, count-update_only}
use parcel_delivery_api.Models.User.{User, accepts_user}
use parcel_delivery_api.Models.RefreshToken.{RefreshToken, accepts_refresh_token}
use parcel_delivery_api.Models.Database.{Database}
use parcel_delivery_api.Services.Auth.{
  has_jti, is_live, live_in_family, revoke, replace, add_token, add_user, update_tokens, new_token,
}
use parcel_delivery_api.Services.Auth.Requests.{Request, serve, FreshHistory}
use parcel_delivery_api.Services.Auth.Invariants.{IsInvariant}
use parcel_delivery_api.Services.Auth.Served.{serve-Keeps}

abbrev pub in_family : String → RefreshToken → Bool
in_family family t = t.family_id == family

module _ (sql : Sql) where
  open sql use {rows}

  pub record OneLive (s : Database sql) : Type 0 where
    pub at : (family : String) → count (live_in_family family) (rows s.refresh_tokens) ≤ 1

  -- The family that a login draws has no token yet.
  abbrev pub NewFamily : Draw → sql.Table RefreshToken → Type 0
  NewFamily draw tokens = none_of (in_family draw.family_id) (rows tokens) ≡ true

  -- A token may be added to a family that has no live one.
  add_token-OneLive :
      (t : RefreshToken) (s : Database sql)
      → OneLive s
      → count (live_in_family t.family_id) (rows s.refresh_tokens) ≡ 0
      → Written OneLive (add_token sql t s)
  add_token-OneLive t s h none_live =
      elim (Bool-cases (accepts_refresh_token (rows s.users) (rows s.refresh_tokens) t)) [
        | inl e ↦ rw e (record {
          at = λ family. ground (
            arith,
            count-add sql (live_in_family family) t s.refresh_tokens,
            h.at family,
            none_live,
            eq_iff t.family_id family,
          );
        })
        | inr e ↦ rw e tt
      ]

  update-OneLive :
      (p : RefreshToken → Bool) (f : RefreshToken → RefreshToken) (s : Database sql)
      → ((x : RefreshToken) → is_live (f x) ≡ false)
      → OneLive s
      → OneLive (update_tokens sql p f s)
  update-OneLive p f s dead h = record {
    at = λ family. omega (
      arith,
      h.at family,
      count-update-le sql (live_in_family family) p f s.refresh_tokens
          (λ x e. ground (arith, e, dead x)),
    );
  }

  -- The rotation of a live token leaves no live one in its family but the new one.
  rotated_count :
      (t : RefreshToken) (now : ℕ) (jti : String) (s : Database sql)
      → Has t (rows s.refresh_tokens)
      → is_live t ≡ true
      → OneLive s
      → count
          (live_in_family t.family_id)
          (rows (update_tokens sql (has_jti t.jti) (replace now jti) s).refresh_tokens)
        ≡ 0
  rotated_count t now jti s m l h =
      count-update_only sql (live_in_family t.family_id) (has_jti t.jti) (replace now jti)
        s.refresh_tokens t (λ y. ground arith) m (ground (arith, l, eq_refl t.family_id))
        (eq_refl t.jti) (h.at t.family_id)

module _ (sql : Sql) (crypto : Crypto) (settings : Settings) where
  open sql use {rows}

  add_user-OneLive :
      (u : User) (s : Database sql) → OneLive sql s → Written (OneLive sql) (add_user sql u s)
  add_user-OneLive u s h = elim (Bool-cases (accepts_user (rows s.users) u)) [
    | inl e ↦ rw e (record { at = h.at })
    | inr e ↦ rw e tt
  ]

  OneLive-IsInvariant : IsInvariant sql crypto settings (OneLive sql) (NewFamily sql)
  OneLive-IsInvariant = record {
    user = add_user-OneLive;
    issued = λ u now draw s f h.
        add_token-OneLive sql (new_token sql crypto settings u draw.family_id now draw) s h (
          none_of-count (in_family draw.family_id) (live_in_family draw.family_id)
            (rows s.refresh_tokens) (λ x e. ground (arith, e)) f);
    revoked = λ p now s only h. update-OneLive sql p (revoke now) s (λ x. refl) h;
    expired = λ t now s m l h. update-OneLive sql (has_jti t.jti) (revoke now) s (λ x. refl) h;
    rotated = λ t u now draw s m l e h.
        add_token-OneLive sql (new_token sql crypto settings u t.family_id now draw)
          (update_tokens sql (has_jti t.jti) (replace now draw.jti) s)
          (update-OneLive sql (has_jti t.jti) (replace now draw.jti) s (λ x. refl) h)
          (rotated_count sql t now draw.jti s m l h);
  }

  -- If every family has one live token at most, it stays so under every history in which each
  -- registration and login draws a family with no token: rotation never forks a family.
  pub serve-OneLive :
      (rs : List Request) (s : Database sql)
      → FreshHistory sql crypto settings (NewFamily sql) rs s
      → OneLive sql s
      → OneLive sql (serve sql crypto settings rs s)
  serve-OneLive = serve-Keeps sql crypto settings (OneLive sql) (NewFamily sql) OneLive-IsInvariant
