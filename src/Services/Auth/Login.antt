-- ===== src/Services/Auth/Login.antt =====
-- `AuthService.register` and `AuthService.login`.
use parcel_delivery_api.Base.{ℕ, ◌≡◌, refl, ap, String, true, false, none, some, arith, eq_refl}
use parcel_delivery_api.Base.Rows.{none_of}
use parcel_delivery_api.Base.Rows.Members.{Has-none_of}
use parcel_delivery_api.Core.Exceptions.{business_error, unauthorized_error, value_error}
use parcel_delivery_api.Core.Action.{Result, ok, raised}
use parcel_delivery_api.Core.Settings.{Settings}
use parcel_delivery_api.Core.Crypto.{Crypto, CryptoLaws}
use parcel_delivery_api.Core.Security.{Draw, hash_token, hash_password, verify_password}
use parcel_delivery_api.Db.Sql.{Sql}
use parcel_delivery_api.Db.Laws.{scalar-add, scalar-none, scalar-Has, Has-add}
use parcel_delivery_api.Models.User.{User}
use parcel_delivery_api.Models.Database.{Database}
use parcel_delivery_api.Services.Auth.{
  AuthResult, has_hash, has_id, has_email, new_token, new_user, auth_result, issue_tokens, register,
  login,
}
use parcel_delivery_api.Services.Auth.Refresh.{IsFresh}

module _ (sql : Sql) (crypto : Crypto) (settings : Settings) where
  open sql use {rows, scalar, add}

  -- The database after a login: a new family with one token.
  abbrev pub after_login : Database sql → User → ℕ → Draw → Database sql
  after_login s u now draw = record s {
    refresh_tokens = add (new_token sql crypto settings u draw.family_id now draw) s.refresh_tokens;
  }

  issue_tokens-ok :
      (u : User) (now : ℕ) (draw : Draw) (s : Database sql)
      → none_of (has_id u.id) (rows s.users) ≡ false
      → IsFresh sql crypto settings draw s
      → issue_tokens sql crypto settings u now draw s
        ≡ (ok (auth_result sql crypto settings u now draw), after_login s u now draw)
  unfolding issue_tokens
  issue_tokens-ok u now draw s h f = ground (arith, f.jti, f.hash, h)

  pub login-ok :
      (email password : String) (now : ℕ) (draw : Draw) (s : Database sql) (u : User)
      → scalar (has_email email) s.users ≡ some u
      → crypto.checkpw password u.hashed_password ≡ some true
      → IsFresh sql crypto settings draw s
      → login sql crypto settings email password now draw s
        ≡ (ok (auth_result sql crypto settings u now draw), after_login s u now draw)
  unfolding login verify_password
  login-ok email password now draw s u h c f =
      let m = scalar-Has sql (has_email email) s.users u h in
      ground
        (arith, h, c, f.jti, f.hash, Has-none_of (has_id u.id) (rows s.users) u m (eq_refl u.id))

  -- A login with a registered email and a password that bcrypt matches returns that user's
  -- credentials, and the returned refresh token names a live row of the new family.
  pub login_succeeds :
      (email password : String) (now : ℕ) (draw : Draw) (s : Database sql) (u : User)
      → scalar (has_email email) s.users ≡ some u
      → crypto.checkpw password u.hashed_password ≡ some true
      → IsFresh sql crypto settings draw s
      → let (r, s') = login sql crypto settings email password now draw s in
        (r ≡ ok (auth_result sql crypto settings u now draw))
        × (scalar (has_hash (hash_token crypto draw.raw_token)) s'.refresh_tokens
            ≡ some (new_token sql crypto settings u draw.family_id now draw))
  login_succeeds email password now draw s u h c f =
      rw (login-ok email password now draw s u h c f) (
        refl,
        scalar-add sql (has_hash (hash_token crypto draw.raw_token))
            (new_token sql crypto settings u draw.family_id now draw) s.refresh_tokens
            (eq_refl (hash_token crypto draw.raw_token)) f.hash,
      )

  -- An unknown email and a wrong password give the same failure, and neither changes anything.
  pub login-refused :
      (email password : String) (now : ℕ) (draw : Draw) (s : Database sql)
      → let q = login sql crypto settings email password now draw s in
        let refused : Result AuthResult = raised (unauthorized_error "Invalid email or password") in
        (scalar (has_email email) s.users ≡ none → q ≡ (refused, s))
        × ((u : User)
            → scalar (has_email email) s.users ≡ some u
            → crypto.checkpw password u.hashed_password ≡ some false
            → q ≡ (refused, s))
  unfolding login verify_password
  login-refused email password now draw s = (λ e. ground (arith, e), λ u e c. ground (arith, e, c))

  -- The failures of `register`, none of which changes anything: an email that is taken, and a
  -- password that bcrypt does not hash.
  pub register_refused :
      (email password salt id : String) (now : ℕ) (draw : Draw) (s : Database sql)
      → let q = register sql crypto settings email password salt id now draw s in
        ((u : User)
          → scalar (has_email email) s.users ≡ some u
          → q ≡ (raised (business_error "Email already registered"), s))
        × (scalar (has_email email) s.users ≡ none
            → crypto.hashpw password salt ≡ none
            → q ≡ (raised value_error, s))
  unfolding register hash_password
  register_refused email password salt id now draw s =
      (λ u e. ground (arith, e), λ e c. ground (arith, e, c))

  abbrev pub after_registration : Database sql → User → ℕ → Draw → Database sql
  after_registration s u now draw = after_login (record s { users = add u s.users }) u now draw

  pub register-ok :
      (email password salt id hashed : String) (now : ℕ) (draw : Draw) (s : Database sql)
      → scalar (has_email email) s.users ≡ none
      → crypto.hashpw password salt ≡ some hashed
      → none_of (has_id id) (rows s.users) ≡ true
      → IsFresh sql crypto settings draw s
      → let u = new_user id email hashed now in
        register sql crypto settings email password salt id now draw s
        ≡ (ok (auth_result sql crypto settings u now draw), after_registration s u now draw)
  unfolding register hash_password
  register-ok email password salt id hashed now draw s h c i f =
      let u = new_user id email hashed now in
      ground (
        arith,
        h,
        c,
        i,
        f.jti,
        f.hash,
        scalar-none sql (has_email email) s.users h,
        Has-none_of (has_id id) (rows (add u s.users)) u (Has-add sql u s.users) (eq_refl id),
      )

  -- Who registers with an email that is free can log in with the same email and password.
  pub register_then_login :
      CryptoLaws crypto
      → (email password salt id hashed : String) (now now2 : ℕ) (draw draw2 : Draw)
        (s : Database sql)
      → scalar (has_email email) s.users ≡ none
      → crypto.hashpw password salt ≡ some hashed
      → none_of (has_id id) (rows s.users) ≡ true
      → IsFresh sql crypto settings draw s
      → let u = new_user id email hashed now in
        let (r, s') = register sql crypto settings email password salt id now draw s in
        (r ≡ ok (auth_result sql crypto settings u now draw))
        × (IsFresh sql crypto settings draw2 s'
            → (login sql crypto settings email password now2 draw2 s').0
              ≡ ok (auth_result sql crypto settings u now2 draw2))
  register_then_login laws email password salt id hashed now now2 draw draw2 s h c i f =
      let u = new_user id email hashed now in
      let s' = after_registration s u now draw in
      let found =
        scalar-add sql (has_email email) u s.users (eq_refl email)
          (scalar-none sql (has_email email) s.users h) in
      rw (register-ok email password salt id hashed now draw s h c i f) (
        refl,
        λ f2.
            ap (λ q. q.0)
              (login-ok email password now2 draw2 s' u found
                (laws.checkpw-hashpw password salt hashed c) f2),
      )
