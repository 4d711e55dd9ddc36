-- ===== src/Api/Application/Failures.antt =====
-- What the handlers raise: only failures whose replies their routes list, or an unexpected one.
use parcel_delivery_api.Base.{ℕ, ◌≡◌, refl, String, true, ◌||◌, Option, none, some, List}
use parcel_delivery_api.Core.Exceptions.{Failure, value_error, unauthorized_error}
use parcel_delivery_api.Core.Action.{Result, lift}
use parcel_delivery_api.Core.Action.Ends.{
  Post, Post-option, Fails, Ends-pure, Ends-if, Ends-commit, Ends-bind,
}
use parcel_delivery_api.Core.Settings.{Settings}
use parcel_delivery_api.Core.Crypto.{Crypto}
use parcel_delivery_api.Core.Security.{Draw, hash_password, verify_password}
use parcel_delivery_api.Db.Sql.{Sql}
use parcel_delivery_api.Models.User.{User}
use parcel_delivery_api.Models.RefreshToken.{RefreshToken}
use parcel_delivery_api.Models.Database.{Database}
use parcel_delivery_api.Services.Auth.{
  AuthResult, issue_tokens, get_refresh_token, refresh_with, login_user, invalid_login, rotate_for,
  found_token, invalid_token,
}
use parcel_delivery_api.Services.Auth
use parcel_delivery_api.Api.Errors.{reply_to}
use parcel_delivery_api.Api.Documented.{
  Response, register_responses, login_responses, refresh_responses, logout_responses,
  logout_all_responses, lists_error, is_unlisted,
}

-- The reply to a failure is one of the listed errors, or one of the two that no route lists.
unfoldable pub Accounted : List Response → Failure → Type 0
Accounted docs e = (is_unlisted (reply_to e) || lists_error docs (reply_to e)) ≡ true

module _ (sql : Sql) (crypto : Crypto) (settings : Settings) where
  issue_tokens-Fails :
      (docs : List Response) (user : User) (now : ℕ) (draw : Draw) (s : Database sql)
      → Fails (Accounted docs) (issue_tokens sql crypto settings user now draw) s
  unfolding issue_tokens Accounted reply_to
  issue_tokens-Fails docs user now draw s = search (Ends-bind, Ends-commit, Ends-pure)

  pub lifted :
      {A : Type 0} (E : Failure → Type 0) (r : Result A) (s : Database sql)
      → Post (λ _. Unit) E r
      → Fails E (lift r) s
  lifted E r s h = record { at = h }

  hash_password-Post :
      (docs : List Response) (password salt : String)
      → Post (λ _. Unit) (Accounted docs) (hash_password crypto password salt)
  unfolding hash_password Accounted reply_to
  hash_password-Post docs password salt =
      Post-option (Accounted docs) value_error (crypto.hashpw password salt) refl

  pub register-Fails :
      (email password salt id : String) (now : ℕ) (draw : Draw) (s : Database sql)
      → Fails
          (Accounted register_responses)
          (Auth.register sql crypto settings email password salt id now draw)
          s
  unfolding Auth.register Accounted reply_to
  register-Fails email password salt id now draw s =
      search
        (Ends-bind, Ends-if, Ends-commit, Ends-pure, issue_tokens-Fails, lifted, hash_password-Post)

  verify_password-Post :
      (docs : List Response) (plain hashed : String)
      → Post (λ _. Unit) (Accounted docs) (verify_password crypto plain hashed)
  unfolding verify_password Accounted reply_to
  verify_password-Post docs plain hashed =
      Post-option (Accounted docs) value_error (crypto.checkpw plain hashed) refl

  invalid_login-Fails : (s : Database sql) → Fails (Accounted login_responses) (invalid_login sql) s
  unfolding Accounted reply_to
  invalid_login-Fails s = record { at = refl }

  login_user-Fails :
      (password : String) (now : ℕ) (draw : Draw) (o : Option User) (s : Database sql)
      → Fails (Accounted login_responses) (login_user sql crypto settings password now draw o) s
  unfolding Accounted reply_to
  login_user-Fails password now draw none s = record { at = refl }
  login_user-Fails password now draw (some user) s =
      search
        (Ends-bind, Ends-if, issue_tokens-Fails, lifted, verify_password-Post, invalid_login-Fails)

  pub login-Fails :
      (email password : String) (now : ℕ) (draw : Draw) (s : Database sql)
      → Fails (Accounted login_responses) (Auth.login sql crypto settings email password now draw) s
  unfolding Auth.login
  login-Fails email password now draw s = search (Ends-bind, Ends-pure, login_user-Fails)

  invalid_token-Fails :
      (docs : List Response) (s : Database sql)
      → Accounted docs (unauthorized_error "Invalid refresh token")
      → Fails (Accounted docs) (invalid_token sql) s
  invalid_token-Fails docs s h = record { at = h }

  found_token-Fails :
      (docs : List Response) (o : Option RefreshToken) (s : Database sql)
      → Accounted docs (unauthorized_error "Invalid refresh token")
      → Fails (Accounted docs) (found_token sql o) s
  found_token-Fails docs none s h = record { at = h }
  found_token-Fails docs (some t) s h = record { at = tt }

  get_refresh_token-Fails :
      (docs : List Response) (raw : String) (s : Database sql)
      → Accounted docs (unauthorized_error "Invalid refresh token")
      → Fails (Accounted docs) (get_refresh_token sql crypto settings raw) s
  unfolding get_refresh_token
  get_refresh_token-Fails docs raw s h = search (Ends-bind, found_token-Fails)

  rotate_for-Fails :
      (t : RefreshToken) (now : ℕ) (draw : Draw) (o : Option User) (s : Database sql)
      → Fails (Accounted refresh_responses) (rotate_for sql crypto settings t now draw o) s
  unfolding Accounted reply_to
  rotate_for-Fails t now draw none s = search (Ends-bind, invalid_token-Fails)
  rotate_for-Fails t now draw (some user) s = search (Ends-bind, Ends-commit)

  refresh_with-Fails :
      (t : RefreshToken) (now : ℕ) (draw : Draw) (s : Database sql)
      → Fails (Accounted refresh_responses) (refresh_with sql crypto settings t now draw) s
  unfolding refresh_with Accounted reply_to
  refresh_with-Fails t now draw s =
      search (Ends-bind, Ends-if, invalid_token-Fails, rotate_for-Fails)

  pub refresh-Fails :
      (raw : String) (now : ℕ) (draw : Draw) (s : Database sql)
      → Fails (Accounted refresh_responses) (Auth.refresh sql crypto settings raw now draw) s
  unfolding Auth.refresh Accounted reply_to
  refresh-Fails raw now draw s = search (Ends-bind, get_refresh_token-Fails, refresh_with-Fails)

  pub logout-Fails :
      (raw : String) (now : ℕ) (s : Database sql)
      → Fails (Accounted logout_responses) (Auth.logout sql crypto settings raw now) s
  unfolding Auth.logout Accounted reply_to
  logout-Fails raw now s = search (Ends-bind, Ends-if, get_refresh_token-Fails)

  pub logout_all-Fails :
      (user_id : String) (now : ℕ) (s : Database sql)
      → Fails (Accounted logout_all_responses) (Auth.logout_all sql crypto settings user_id now) s
  unfolding Auth.logout_all
  logout_all-Fails user_id now s = record { at = tt }
