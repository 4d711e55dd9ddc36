-- ===== src/Services/Auth/Invariants.antt =====
-- app/services/auth.py: what an invariant of users and tokens asks of the writes, and the rule for
-- registration and login.
use parcel_delivery_api.Base.{ℕ, ◌≡◌, String, Bool, true, Option, none, some, arith, is_some}
use parcel_delivery_api.Base.Rows.{Has}
use parcel_delivery_api.Core.Exceptions.{business_error, unauthorized_error, integrity_error}
use parcel_delivery_api.Core.Action.{ok, lift, commit}
use parcel_delivery_api.Core.Action.Keeps.{
  Keeps, Written, Keeps-pure, Keeps-raise, Keeps-if, Keeps-commit, Keeps-bind,
}
use parcel_delivery_api.Core.Settings.{Settings}
use parcel_delivery_api.Core.Crypto.{Crypto}
use parcel_delivery_api.Core.Security.{Draw, hash_password, verify_password}
use parcel_delivery_api.Db.Sql.{Sql}
use parcel_delivery_api.Models.User.{User}
use parcel_delivery_api.Models.RefreshToken.{RefreshToken}
use parcel_delivery_api.Models.Database.{Database}
use parcel_delivery_api.Services.Auth.{
  has_jti, has_email, is_live, revoke, new_token, new_user, add_token, add_user, update_tokens,
  rotate, issue_tokens, register_new, register, login_user, login, auth_result,
}

module _ (sql : Sql) (crypto : Crypto) (settings : Settings) where
  open sql use {rows, scalar, Table}

  -- `Fresh` is what the invariant asks of the values that a registration or a login draws.
  pub record IsInvariant (P : Database sql → Type 0) (Fresh : Draw → Table RefreshToken → Type 0)
      : Type 0 where
    pub user : (u : User) (s : Database sql) → P s → Written P (add_user sql u s)
    pub issued :
        (u : User) (now : ℕ) (draw : Draw) (s : Database sql)
        → Fresh draw s.refresh_tokens
        → P s
        → Written P (add_token sql (new_token sql crypto settings u draw.family_id now draw) s)
    -- a revocation of live tokens only
    pub revoked :
        (p : RefreshToken → Bool) (now : ℕ) (s : Database sql)
        → ((t : RefreshToken) → p t ≡ true → is_live t ≡ true)
        → P s
        → P (update_tokens sql p (revoke now) s)
    pub expired :
        (t : RefreshToken) (now : ℕ) (s : Database sql)
        → Has t (rows s.refresh_tokens)
        → is_live t ≡ true
        → P s
        → P (update_tokens sql (has_jti t.jti) (revoke now) s)
    pub rotated :
        (t : RefreshToken) (u : User) (now : ℕ) (draw : Draw) (s : Database sql)
        → Has t (rows s.refresh_tokens)
        → is_live t ≡ true
        → u.id ≡ t.user_id
        → P s
        → Written P (rotate sql crypto settings t u now draw s)

  module _ (P : Database sql → Type 0) (Fresh : Draw → Table RefreshToken → Type 0)
      (inv : IsInvariant P Fresh) where
    issue_tokens-Keeps :
        (user : User) (now : ℕ) (draw : Draw) (s : Database sql)
        → Fresh draw s.refresh_tokens
        → Keeps P (issue_tokens sql crypto settings user now draw) s
    unfolding issue_tokens
    issue_tokens-Keeps user now draw s f =
        let write = add_token sql (new_token sql crypto settings user draw.family_id now draw) in
        Keeps-bind P (commit write integrity_error) _ s
          (Keeps-commit P write integrity_error s (inv.issued user now draw s f))
          (λ a. Keeps-pure P (ok (auth_result sql crypto settings user now draw)) _)

    tokens-add_user :
        (u : User) (s : Database sql)
        → (commit (add_user sql u) integrity_error s).1.refresh_tokens ≡ s.refresh_tokens
    tokens-add_user u s = ground arith

    register_new-Keeps :
        (email password salt id : String) (now : ℕ) (draw : Draw) (s : Database sql)
        → Fresh draw s.refresh_tokens
        → Keeps P (register_new sql crypto settings email password salt id now draw) s
    register_new-Keeps email password salt id now draw s f =
        Keeps-bind P (lift (hash_password crypto password salt)) _ s
          (Keeps-pure P (hash_password crypto password salt) s)
          λ hashed.
            let user = new_user id email hashed now in
            Keeps-bind P _ _ s
              (Keeps-commit P (add_user sql user) integrity_error s (inv.user user s))
              λ a. issue_tokens-Keeps user now draw _ (rw (tokens-add_user user s) f)

    pub register-Keeps :
        (email password salt id : String) (now : ℕ) (draw : Draw) (s : Database sql)
        → Fresh draw s.refresh_tokens
        → Keeps P (register sql crypto settings email password salt id now draw) s
    unfolding register
    register-Keeps email password salt id now draw s f = record {
      at =
          (Keeps-if P (is_some (scalar (has_email email) s.users)) _ _ s
            (λ _. Keeps-raise P (business_error "Email already registered") s)
            (λ _. register_new-Keeps email password salt id now draw s f)).at;
    }

    login_user-Keeps :
        (password : String) (now : ℕ) (draw : Draw) (user : Option User) (s : Database sql)
        → Fresh draw s.refresh_tokens
        → Keeps P (login_user sql crypto settings password now draw user) s
    login_user-Keeps password now draw none s f = Keeps-pure P _ s
    login_user-Keeps password now draw (some user) s f =
        Keeps-bind P (lift (verify_password crypto password user.hashed_password)) _ s
          (Keeps-pure P (verify_password crypto password user.hashed_password) s)
          λ matches.
            Keeps-if P matches _ _ s (λ _. issue_tokens-Keeps user now draw s f)
              (λ _. Keeps-raise P (unauthorized_error "Invalid email or password") s)

    pub login-Keeps :
        (email password : String) (now : ℕ) (draw : Draw) (s : Database sql)
        → Fresh draw s.refresh_tokens
        → Keeps P (login sql crypto settings email password now draw) s
    unfolding login
    login-Keeps email password now draw s f = record {
      at = (login_user-Keeps password now draw (scalar (has_email email) s.users) s f).at;
    }
