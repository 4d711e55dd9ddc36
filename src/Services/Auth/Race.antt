-- ===== src/Services/Auth/Race.antt =====
-- Two requests that present one refresh token at the same time. `refresh` reads the row with a plain
-- SELECT, so both may read it live before either commits; `refresh_with` is what each then does.
use parcel_delivery_api.Base.{ℕ, ◌≡◌, refl, ◌∙◌, String, false, some, arith, ◌==◌, eq_refl, eq_iff}
use parcel_delivery_api.Core.Action.{ok}
use parcel_delivery_api.Core.Settings.{Settings}
use parcel_delivery_api.Core.Crypto.{Crypto}
use parcel_delivery_api.Core.Security.{Draw, hash_token}
use parcel_delivery_api.Db.Sql.{Sql}
use parcel_delivery_api.Db.Laws.{
  none_of-add, none_of-update, scalar-add, scalar-add_skip, scalar-update,
}
use parcel_delivery_api.Models.User.{User}
use parcel_delivery_api.Models.RefreshToken.{RefreshToken}
use parcel_delivery_api.Models.Database.{Database}
use parcel_delivery_api.Services.Auth.{
  has_hash, has_jti, replace, new_token, auth_result, refresh_with,
}
use parcel_delivery_api.Services.Auth.Refresh.{Usable, IsFresh, refresh_with-ok, after_rotation}

module _ (sql : Sql) (crypto : Crypto) (settings : Settings) where
  open sql use {rows, scalar, add, update}

  -- What another request draws is still fresh after a rotation.
  IsFresh-after_rotation :
      (draw draw2 : Draw) (now : ℕ) (s : Database sql) (t : RefreshToken) (u : User)
      → (draw.jti == draw2.jti) ≡ false
      → (hash_token crypto draw.raw_token == hash_token crypto draw2.raw_token) ≡ false
      → IsFresh sql crypto settings draw2 s
      → IsFresh sql crypto settings draw2 (after_rotation sql crypto settings s t u now draw)
  IsFresh-after_rotation draw draw2 now s t u j h f =
      let new = new_token sql crypto settings u t.family_id now draw in
      let updated = update (has_jti t.jti) (replace now draw.jti) s.refresh_tokens in
      record {
        jti = none_of-add sql (has_jti draw2.jti) new updated j (
            none_of-update sql (has_jti draw2.jti) (has_jti t.jti) (replace now draw.jti)
              s.refresh_tokens (λ x. refl)
            ∙ f.jti);
        hash = none_of-add sql (has_hash (hash_token crypto draw2.raw_token)) new updated h (
            none_of-update sql (has_hash (hash_token crypto draw2.raw_token)) (has_jti t.jti)
              (replace now draw.jti) s.refresh_tokens (λ x. refl)
            ∙ f.hash);
      }

  -- Two overlapping requests with one usable token both succeed, each with a successor of its own,
  -- and both successors are then live in the family: the reuse goes unnoticed. (The row has another
  -- jti than the first successor.)
  pub overlapping_refreshes_fork :
      (raw : String) (now : ℕ) (draw draw2 : Draw) (s : Database sql) (t : RefreshToken) (u : User)
      → Usable sql crypto settings raw now s t u
      → IsFresh sql crypto settings draw s
      → IsFresh sql crypto settings draw2 s
      → (draw.jti == draw2.jti) ≡ false
      → (draw.jti == t.jti) ≡ false
      → (hash_token crypto draw.raw_token == hash_token crypto draw2.raw_token) ≡ false
      → let (r1, s1) = refresh_with sql crypto settings t now draw s in
        let (r2, s2) = refresh_with sql crypto settings t now draw2 s1 in
        (r1 ≡ ok (auth_result sql crypto settings u now draw))
        × (r2 ≡ ok (auth_result sql crypto settings u now draw2))
        × (scalar (has_hash (hash_token crypto draw.raw_token)) s2.refresh_tokens
            ≡ some (new_token sql crypto settings u t.family_id now draw))
        × (scalar (has_hash (hash_token crypto draw2.raw_token)) s2.refresh_tokens
            ≡ some (new_token sql crypto settings u t.family_id now draw2))
  overlapping_refreshes_fork raw now draw draw2 s t u h f f2 j jt e =
      let s1 = after_rotation sql crypto settings s t u now draw in
      let new = new_token sql crypto settings u t.family_id now draw in
      let new2 = new_token sql crypto settings u t.family_id now draw2 in
      let hash = hash_token crypto draw.raw_token in
      let hash2 = hash_token crypto draw2.raw_token in
      let updated = update (has_jti t.jti) (replace now draw.jti) s.refresh_tokens in
      let updated2 = update (has_jti t.jti) (replace now draw2.jti) s1.refresh_tokens in
      let f3 = IsFresh-after_rotation draw draw2 now s t u j e f2 in
      let first_added = scalar-add sql (has_hash hash) new updated (eq_refl hash) (
        none_of-update sql (has_hash hash) (has_jti t.jti) (replace now draw.jti) s.refresh_tokens
          (λ x. refl)
        ∙ f.hash) in
      rw (refresh_with-ok sql crypto settings now draw s t u h.live h.unexpired h.owner f) (
        rw (refresh_with-ok sql crypto settings now draw2 s1 t u h.live h.unexpired h.owner f3) (
          refl,
          refl,
          scalar-add_skip sql (has_hash hash) new2 updated2
                (ground (arith, e, eq_iff hash hash2, eq_iff hash2 hash))
              ∙ scalar-update sql (has_hash hash) (has_jti t.jti) (replace now draw2.jti)
                  s1.refresh_tokens (λ x. refl)
              ∙ rw (first_added, jt) refl,
          scalar-add sql (has_hash hash2) new2 updated2 (eq_refl hash2) (
              none_of-update sql (has_hash hash2) (has_jti t.jti) (replace now draw2.jti)
                s1.refresh_tokens (λ x. refl)
              ∙ f3.hash),
        ))
