-- ===== src/Services/Auth/Served.antt =====
-- One rule for every invariant of users and tokens: a predicate that the writes keep is kept by every
-- request, and so by every history.
use parcel_delivery_api.Base.{
  ℕ, ◌≡◌, refl, ap, eq_iff, String, true, Option, none, some, List, [], ◌∷◌, arith, is_some, leb,
  not, if◌then◌else◌,
}
use parcel_delivery_api.Base.Rows.{Has}
use parcel_delivery_api.Core.Exceptions.{unauthorized_error, integrity_error}
use parcel_delivery_api.Core.Action.{Action, raised, ok, commit, pure, ◌>>=◌}
use parcel_delivery_api.Core.Action.Keeps.{
  Keeps, Keeps-pure, Keeps-raise, Keeps-if, Keeps-commit, Keeps-bind,
}
use parcel_delivery_api.Core.Settings.{Settings}
use parcel_delivery_api.Core.Crypto.{Crypto}
use parcel_delivery_api.Core.Security.{Draw, hash_token}
use parcel_delivery_api.Db.Sql.{Sql}
use parcel_delivery_api.Db.Laws.{scalar-Has, scalar-true}
use parcel_delivery_api.Models.User.{User}
use parcel_delivery_api.Models.RefreshToken.{RefreshToken}
use parcel_delivery_api.Models.Database.{Database}
use parcel_delivery_api.Services.Auth.{
  has_id, has_hash, is_live, live_in_family, live_of_user, rotate, invalid_token, rotate_for,
  refresh_with, found_token, refresh, logout, logout_all, revoke_token, revoke_family, auth_result,
}
use parcel_delivery_api.Services.Auth.Requests.{
  Request, registration, authentication, rotation, revocation, revocation_of_all, step, serve,
  FreshRequest, FreshHistory,
}
use parcel_delivery_api.Services.Auth.Invariants.{IsInvariant, register-Keeps, login-Keeps}

module _ (sql : Sql) (crypto : Crypto) (settings : Settings) where
  open sql use {rows, scalar, Table}

  module _ (P : Database sql → Type 0) (Fresh : Draw → Table RefreshToken → Type 0)
      (inv : IsInvariant sql crypto settings P Fresh) where
    invalid-Keeps : (s : Database sql) → Keeps P (invalid_token sql) s
    invalid-Keeps s = Keeps-pure P (raised (unauthorized_error "Invalid refresh token")) s

    rotate_for-Keeps :
        (t : RefreshToken) (now : ℕ) (draw : Draw) (s : Database sql) (user : Option User)
        → scalar (has_id t.user_id) s.users ≡ user
        → Has t (rows s.refresh_tokens)
        → is_live t ≡ true
        → Keeps P (rotate_for sql crypto settings t now draw user) s
    rotate_for-Keeps t now draw s none e m l =
        Keeps-bind P (revoke_token sql t now) _ s (record { at = inv.expired t now s m l })
          (λ a. invalid-Keeps _)
    rotate_for-Keeps t now draw s (some user) e m l =
        let write = rotate sql crypto settings t user now draw in
        Keeps-bind P (commit write integrity_error) _ s
          (Keeps-commit P write integrity_error s (
            inv.rotated t user now draw s m l
              ((eq_iff user.id t.user_id).0 (scalar-true sql (has_id t.user_id) s.users user e))))
          (λ a. Keeps-pure P (ok (auth_result sql crypto settings user now draw)) _)

    refresh_with-Keeps :
        (t : RefreshToken) (now : ℕ) (draw : Draw) (s : Database sql)
        → Has t (rows s.refresh_tokens)
        → Keeps P (refresh_with sql crypto settings t now draw) s
    unfolding refresh_with
    refresh_with-Keeps t now draw s m =
        Keeps-if P (is_some t.revoked_at) _ _ s
          (λ _.
            Keeps-bind P (revoke_family sql t.family_id now) _ s
              (record {
                at = inv.revoked (live_in_family t.family_id) now s (λ x e. ground (arith, e));
              })
              (λ a. invalid-Keeps _))
          (λ live.
            Keeps-if P (leb t.expires_at now) _ _ s
              (λ _.
                Keeps-bind P (revoke_token sql t now) _ s
                  (record { at = inv.expired t now s m (ap not live) }) (λ a. invalid-Keeps _))
              (λ _. record {
                at =
                    (rotate_for-Keeps t now draw s (scalar (has_id t.user_id) s.users) refl m
                      (ap not live)).at;
              }))

    refresh_found-Keeps :
        (now : ℕ) (draw : Draw) (s : Database sql) (o : Option RefreshToken)
        → ((t : RefreshToken) → o ≡ some t → Has t (rows s.refresh_tokens))
        → Keeps P (found_token sql o >>= λ t. refresh_with sql crypto settings t now draw) s
    refresh_found-Keeps now draw s none h = invalid-Keeps s
    refresh_found-Keeps now draw s (some t) h = record {
      at = (refresh_with-Keeps t now draw s (h t refl)).at;
    }

    refresh-Keeps :
        (raw : String) (now : ℕ) (draw : Draw) (s : Database sql)
        → Keeps P (refresh sql crypto settings raw now draw) s
    unfolding refresh
    refresh-Keeps raw now draw s =
        let o = scalar (has_hash (hash_token crypto raw)) s.refresh_tokens in
        record {
          at =
              (refresh_found-Keeps now draw s o
                (scalar-Has sql (has_hash (hash_token crypto raw)) s.refresh_tokens)).at;
        }

    logout_token : RefreshToken → ℕ → Action (Database sql) (Unit {0})
    logout_token t now = if is_some t.revoked_at then pure tt else revoke_token sql t now

    logout_found-Keeps :
        (now : ℕ) (s : Database sql) (o : Option RefreshToken)
        → ((t : RefreshToken) → o ≡ some t → Has t (rows s.refresh_tokens))
        → Keeps P (found_token sql o >>= λ t. logout_token t now) s
    unfolding logout_token
    logout_found-Keeps now s none h = Keeps-raise P (unauthorized_error "Invalid refresh token") s
    logout_found-Keeps now s (some t) h = record {
      at =
          (Keeps-if P (is_some t.revoked_at) (pure tt) (revoke_token sql t now) s
            (λ _. Keeps-pure P (ok tt) s)
            (λ live. record { at = inv.expired t now s (h t refl) (ap not live) })).at;
    }

    logout-Keeps :
        (raw : String) (now : ℕ) (s : Database sql) → Keeps P (logout sql crypto settings raw now) s
    unfolding logout logout_token
    logout-Keeps raw now s =
        let o = scalar (has_hash (hash_token crypto raw)) s.refresh_tokens in
        record {
          at =
              (logout_found-Keeps now s o
                (scalar-Has sql (has_hash (hash_token crypto raw)) s.refresh_tokens)).at;
        }

    logout_all-Keeps :
        (user_id : String) (now : ℕ) (s : Database sql)
        → Keeps P (logout_all sql crypto settings user_id now) s
    unfolding logout_all
    logout_all-Keeps user_id now s = record {
      at = inv.revoked (live_of_user user_id) now s (λ x e. ground (arith, e));
    }

    step-Keeps :
        (r : Request) (s : Database sql)
        → FreshRequest sql Fresh r s
        → P s
        → P (step sql crypto settings r s)
    unfolding step
    step-Keeps (registration email password salt id now draw) s f =
        (register-Keeps sql crypto settings P Fresh inv email password salt id now draw s f).at
    step-Keeps (authentication email password now draw) s f =
        (login-Keeps sql crypto settings P Fresh inv email password now draw s f).at
    step-Keeps (rotation raw now draw) s f = (refresh-Keeps raw now draw s).at
    step-Keeps (revocation raw now) s f = (logout-Keeps raw now s).at
    step-Keeps (revocation_of_all user_id now) s f = (logout_all-Keeps user_id now s).at

    pub serve-Keeps :
        (rs : List Request) (s : Database sql)
        → FreshHistory sql crypto settings Fresh rs s
        → P s
        → P (serve sql crypto settings rs s)
    unfolding serve
    serve-Keeps [] s f p = p
    serve-Keeps (r ∷ rs) s f p =
        serve-Keeps rs (step sql crypto settings r s) f.1 (step-Keeps r s f.0 p)
