-- ===== src/Services/Auth.antt =====
-- app/services/auth.py: registration, login, refresh rotation and logout. The clock and what is
-- drawn at random are arguments. A read and the commit that follows it are one step here, so each
-- request runs alone; Services/Auth/Race has the interleaving of two requests.
pub mod Refresh
pub mod Rotation
pub mod Validity
pub mod Requests
pub mod Invariants
pub mod Served
pub mod Permanence
pub mod Families
pub mod Login
pub mod Logout
pub mod Race
use parcel_delivery_api.Base.{
  ℕ, ◌+◌, ◌*◌, String, Bool, true, false, Option, none, some, ◌==◌, ◌&&◌, not, leb, is_some,
  if◌then◌else◌,
}
use parcel_delivery_api.Core.Exceptions.{business_error, unauthorized_error, integrity_error}
use parcel_delivery_api.Core.Action.{
  Action, Result, ok, raised, pure, raise, lift, gets, modify, commit, ◌>>=◌, ◌>>◌,
}
use parcel_delivery_api.Core.Settings.{Settings}
use parcel_delivery_api.Core.Crypto.{Crypto}
use parcel_delivery_api.Core.Security.{
  Draw, hash_token, hash_password, verify_password, create_access_token, default_user_role,
  default_user_scopes,
}
use parcel_delivery_api.Db.Sql.{Sql}
use parcel_delivery_api.Db.Insert.{insert}
use parcel_delivery_api.Models.User.{User, accepts_user}
use parcel_delivery_api.Models.RefreshToken.{RefreshToken, accepts_refresh_token}
use parcel_delivery_api.Models.Database.{Database}

pub record AuthResult : Type 0 where
  pub user : User
  pub access_token : String
  pub refresh_token : String
  pub csrf_token : String

-- The tests of the WHERE clauses, and what the UPDATE statements write.
abbrev pub has_hash : String → RefreshToken → Bool
has_hash h t = t.token_hash == h

abbrev pub has_jti : String → RefreshToken → Bool
has_jti j t = t.jti == j

abbrev pub has_email : String → User → Bool
has_email e u = u.email == e

abbrev pub has_id : String → User → Bool
has_id i u = u.id == i

abbrev pub is_live : RefreshToken → Bool
is_live t = not (is_some t.revoked_at)

abbrev pub revoke : ℕ → RefreshToken → RefreshToken
revoke now t = record t { revoked_at = some now }

abbrev pub replace : ℕ → String → RefreshToken → RefreshToken
replace now jti t = record t { revoked_at = some now; replaced_by_jti = some jti }

abbrev pub live_in_family : String → RefreshToken → Bool
live_in_family family t = t.family_id == family && is_live t

abbrev pub live_of_user : String → RefreshToken → Bool
live_of_user user_id t = t.user_id == user_id && is_live t

-- `user.id` is `id`, drawn by the default of the model.
abbrev pub new_user : String → String → String → ℕ → User
new_user id email hashed now = record {
  id = id;
  email = email;
  hashed_password = hashed;
  role = default_user_role;
  created_at = now;
}

module _ (sql : Sql) where
  open sql use {rows, scalar, update}

  abbrev pub Auth : Type 0 → Type 0
  Auth A = Action (Database sql) A

  abbrev pub with_tokens : Database sql → Option (sql.Table RefreshToken) → Option (Database sql)
  with_tokens s none = none
  with_tokens s (some tokens) = some (record s { refresh_tokens = tokens })

  abbrev pub with_users : Database sql → Option (sql.Table User) → Option (Database sql)
  with_users s none = none
  with_users s (some users) = some (record s { users = users })

  abbrev pub add_token : RefreshToken → Database sql → Option (Database sql)
  add_token t s =
      with_tokens s (insert sql (accepts_refresh_token (rows s.users)) t s.refresh_tokens)

  abbrev pub update_tokens :
      (RefreshToken → Bool) → (RefreshToken → RefreshToken) → Database sql → Database sql
  update_tokens p f s = record s { refresh_tokens = update p f s.refresh_tokens }

  abbrev pub find_user : (User → Bool) → Auth (Option User)
  find_user p = gets (λ s. scalar p s.users)

  abbrev pub found_token : Option RefreshToken → Auth RefreshToken
  found_token none = raise (unauthorized_error "Invalid refresh token")
  found_token (some t) = pure t

  abbrev pub revoke_family : String → ℕ → Auth (Unit {0})
  revoke_family family now = modify (update_tokens (live_in_family family) (revoke now))

  abbrev add_user : User → Database sql → Option (Database sql)
  add_user u s = with_users s (insert sql accepts_user u s.users)

  abbrev pub invalid_login : Auth AuthResult
  invalid_login = raise (unauthorized_error "Invalid email or password")

  abbrev pub invalid_token : Auth AuthResult
  invalid_token = raise (unauthorized_error "Invalid refresh token")

  -- `token.revoked_at = now` and the commit
  abbrev pub revoke_token : RefreshToken → ℕ → Auth (Unit {0})
  revoke_token t now = modify (update_tokens (has_jti t.jti) (revoke now))

module _ (sql : Sql) (crypto : Crypto) (settings : Settings) where
  open sql use {rows, scalar, update}

  unfoldable pub refresh_expires_at : ℕ → ℕ
  refresh_expires_at now = now + settings.jwt_refresh_token_expire_days * 86400

  -- `user.role or DEFAULT_USER_ROLE`
  abbrev pub role_of : User → String
  role_of user = if user.role == "" then default_user_role else user.role

  abbrev pub create_user_access_token : User → ℕ → String → String
  create_user_access_token user now jti =
      create_access_token crypto settings user.id (role_of user) default_user_scopes now jti

  -- The row that a login, or a rotation within the family, stores.
  abbrev pub new_token : User → String → ℕ → Draw → RefreshToken
  new_token user family now draw = record {
    jti = draw.jti;
    user_id = user.id;
    token_hash = hash_token crypto draw.raw_token;
    family_id = family;
    expires_at = refresh_expires_at now;
    revoked_at = none;
    replaced_by_jti = none;
    created_at = now;
  }

  abbrev pub auth_result : User → ℕ → Draw → AuthResult
  auth_result user now draw = record {
    user = user;
    access_token = create_user_access_token user now draw.access_jti;
    refresh_token = draw.raw_token;
    csrf_token = draw.csrf_token;
  }

  unfoldable pub issue_tokens : User → ℕ → Draw → Auth sql AuthResult
  issue_tokens user now draw = do
    commit (add_token sql (new_token user draw.family_id now draw)) integrity_error
    pure (auth_result user now draw)

  unfoldable pub get_refresh_token : String → Auth sql RefreshToken
  get_refresh_token raw = do
    t ← gets (λ s. scalar (has_hash (hash_token crypto raw)) s.refresh_tokens)
    found_token sql t

  abbrev register_new : String → String → String → String → ℕ → Draw → Auth sql AuthResult
  register_new email password salt id now draw = do
    hashed ← lift (hash_password crypto password salt)
    let user = new_user id email hashed now
    commit (add_user sql user) integrity_error
    issue_tokens user now draw

  unfoldable pub register : String → String → String → String → ℕ → Draw → Auth sql AuthResult
  unfolding issue_tokens
  register email password salt id now draw = do
    existing ← find_user sql (has_email email)
    if is_some existing
        then raise (business_error "Email already registered")
        else register_new email password salt id now draw

  abbrev pub login_user : String → ℕ → Draw → Option User → Auth sql AuthResult
  login_user password now draw none = invalid_login sql
  login_user password now draw (some user) = do
    matches ← lift (verify_password crypto password user.hashed_password)
    if matches then issue_tokens user now draw else invalid_login sql

  unfoldable pub login : String → String → ℕ → Draw → Auth sql AuthResult
  unfolding issue_tokens
  login email password now draw = do
    user ← find_user sql (has_email email)
    login_user password now draw user

  -- One commit revokes the old token and stores its successor.
  abbrev pub rotate : RefreshToken → User → ℕ → Draw → Database sql → Option (Database sql)
  rotate t user now draw s =
      add_token sql (new_token user t.family_id now draw)
        (update_tokens sql (has_jti t.jti) (replace now draw.jti) s)

  abbrev pub rotate_for : RefreshToken → ℕ → Draw → Option User → Auth sql AuthResult
  rotate_for t now draw none = revoke_token sql t now >> invalid_token sql
  rotate_for t now draw (some user) = do
    commit (rotate t user now draw) integrity_error
    pure (auth_result user now draw)

  unfoldable pub refresh_with : RefreshToken → ℕ → Draw → Auth sql AuthResult
  refresh_with t now draw =
      if is_some t.revoked_at
      then revoke_family sql t.family_id now >> invalid_token sql
      else if leb t.expires_at now
      then revoke_token sql t now >> invalid_token sql
      else find_user sql (has_id t.user_id) >>= rotate_for t now draw

  unfoldable pub refresh : String → ℕ → Draw → Auth sql AuthResult
  unfolding get_refresh_token refresh_with
  refresh raw now draw = do t ← get_refresh_token raw; refresh_with t now draw

  unfoldable pub logout : String → ℕ → Auth sql (Unit {0})
  unfolding get_refresh_token
  logout raw now = do
    t ← get_refresh_token raw
    if is_some t.revoked_at then pure tt else revoke_token sql t now

  unfoldable pub logout_all : String → ℕ → Auth sql (Unit {0})
  logout_all user_id now = modify (update_tokens sql (live_of_user user_id) (revoke now))
