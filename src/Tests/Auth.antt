-- ===== src/Tests/Auth.antt =====
-- app/services/auth.py
use parcel_delivery_api.Base.{◌≡◌, refl, none, some, List, [], ◌∷◌, arith}
use parcel_delivery_api.Core.Exceptions.{unauthorized_error}
use parcel_delivery_api.Core.Action.{Result, ok, raised}
use parcel_delivery_api.Core.Settings.{default_settings}
use parcel_delivery_api.Core.Security.{Draw}
use parcel_delivery_api.Db.Memory.{memory}
use parcel_delivery_api.Models.User.{User}
use parcel_delivery_api.Models.RefreshToken.{RefreshToken}
use parcel_delivery_api.Models.Database.{Database}
use parcel_delivery_api.Services.Auth.{
  AuthResult, has_hash, has_jti, replace, new_token, new_user, auth_result, refresh, refresh_with,
  refresh_expires_at, register, login, logout, issue_tokens,
}
use parcel_delivery_api.Services.Auth.Refresh.{Usable, IsFresh}
use parcel_delivery_api.Services.Auth.Rotation.{
  refresh_rotates, refresh_only-Usable, replay_revokes_successor,
}
use parcel_delivery_api.Services.Auth.Login.{register_then_login}
use parcel_delivery_api.Services.Auth.Logout.{logout_ends_token}
use parcel_delivery_api.Services.Auth.Race.{overlapping_refreshes_fork}
use parcel_delivery_api.Services.Auth.Requests.{
  Request, registration, rotation, revocation, serve, step,
}
use parcel_delivery_api.Services.Auth.Validity.{IsValid}
use parcel_delivery_api.Services.Auth.Permanence.{revoked_forever}
use parcel_delivery_api.Services.Auth.Families.{OneLive, serve-OneLive}
use parcel_delivery_api.Tests.Toy.{toy, toy_laws}

abbrev pub ann : User
ann = record {
  id = "u1";
  email = "ann@example.com";
  hashed_password = "correct horse";
  role = "user";
  created_at = 10;
}

abbrev live : RefreshToken
live = record {
  jti = "j1";
  user_id = "u1";
  token_hash = "raw1";
  family_id = "f1";
  expires_at = 500;
  revoked_at = none;
  replaced_by_jti = none;
  created_at = 10;
}

abbrev spent : RefreshToken
spent = record live {
  jti = "j0";
  token_hash = "raw0";
  revoked_at = some 20;
  replaced_by_jti = some "j1";
}

abbrev elsewhere : RefreshToken
elsewhere = record live { jti = "j7"; user_id = "u2"; token_hash = "raw7"; family_id = "f7" }

abbrev pub start : Database memory
start = record {
  users = ann ∷ [];
  refresh_tokens = live ∷ spent ∷ elsewhere ∷ [];
  parcel_types = [];
  parcels = [];
}

abbrev pub draw2 : Draw
draw2 = record {
  raw_token = "raw2";
  jti = "j2";
  csrf_token = "c2";
  family_id = "f2";
  access_jti = "a2";
}

abbrev pub draw3 : Draw
draw3 = record {
  raw_token = "raw3";
  jti = "j3";
  csrf_token = "c3";
  family_id = "f3";
  access_jti = "a3";
}

abbrev new2 : RefreshToken
new2 = new_token memory toy default_settings ann "f1" 100 draw2

live-Usable : Usable memory toy default_settings "raw1" 100 start live ann
live-Usable = record { found = refl; live = refl; unexpired = omega arith; owner = refl }

draw2-IsFresh : IsFresh memory toy default_settings draw2 start
draw2-IsFresh = record { jti = refl; hash = refl }

draw3-IsFresh : IsFresh memory toy default_settings draw3 start
draw3-IsFresh = record { jti = refl; hash = refl }

refresh_rotates_example :
    let (r, s') = refresh memory toy default_settings "raw1" 100 draw2 start in
    (r ≡ ok (auth_result memory toy default_settings ann 100 draw2))
    × (memory.scalar (has_hash "raw1") s'.refresh_tokens ≡ some (replace 100 "j2" live))
    × (memory.scalar (has_hash "raw2") s'.refresh_tokens ≡ some new2)
unfolding refresh_expires_at
refresh_rotates_example =
    refresh_rotates memory toy default_settings "raw1" 100 draw2 start live ann live-Usable
      draw2-IsFresh

refresh_ok :
    (refresh memory toy default_settings "raw1" 100 draw2 start).0
    ≡ ok (auth_result memory toy default_settings ann 100 draw2)
refresh_ok =
    (refresh_rotates memory toy default_settings "raw1" 100 draw2 start live ann live-Usable
      draw2-IsFresh).0

refresh_only-Usable_example :
    (t : RefreshToken) × (u : User) × Usable memory toy default_settings "raw1" 100 start t u
    × (auth_result memory toy default_settings ann 100 draw2
        ≡ auth_result memory toy default_settings u 100 draw2)
refresh_only-Usable_example =
    refresh_only-Usable memory toy default_settings "raw1" 100 draw2 start
      (auth_result memory toy default_settings ann 100 draw2) refresh_ok

abbrev refused : Result AuthResult
refused = raised (unauthorized_error "Invalid refresh token")

replay_revokes_successor_example :
    let s1 = (refresh memory toy default_settings "raw1" 100 draw2 start).1 in
    let (r2, s2) = refresh memory toy default_settings "raw1" 110 draw3 s1 in
    let (r3, s3) = refresh memory toy default_settings "raw2" 120 draw3 s2 in
    (r2 ≡ raised (unauthorized_error "Invalid refresh token"))
    × (r3 ≡ raised (unauthorized_error "Invalid refresh token"))
replay_revokes_successor_example =
    replay_revokes_successor memory toy default_settings "raw1" 100 110 120 draw2 draw3 draw3 start
      live ann live-Usable draw2-IsFresh

overlapping_refreshes_fork_example :
    let (r1, s1) = refresh_with memory toy default_settings live 100 draw2 start in
    let (r2, s2) = refresh_with memory toy default_settings live 100 draw3 s1 in
    (r1 ≡ ok (auth_result memory toy default_settings ann 100 draw2))
    × (r2 ≡ ok (auth_result memory toy default_settings ann 100 draw3))
    × (memory.scalar (has_hash "raw2") s2.refresh_tokens ≡ some new2)
    × (memory.scalar (has_hash "raw3") s2.refresh_tokens
        ≡ some (new_token memory toy default_settings ann "f1" 100 draw3))
overlapping_refreshes_fork_example =
    overlapping_refreshes_fork memory toy default_settings "raw1" 100 draw2 draw3 start live ann
      live-Usable draw2-IsFresh draw3-IsFresh refl refl refl

register_then_login_example :
    let u = new_user "u9" "bob@example.com" "password1" 100 in
    let (r, s') =
      register memory toy default_settings "bob@example.com" "password1" "salt" "u9" 100 draw2
        start in
    (r ≡ ok (auth_result memory toy default_settings u 100 draw2))
    × (IsFresh memory toy default_settings draw3 s'
        → (login memory toy default_settings "bob@example.com" "password1" 200 draw3 s').0
          ≡ ok (auth_result memory toy default_settings u 200 draw3))
register_then_login_example =
    register_then_login memory toy default_settings toy_laws "bob@example.com" "password1" "salt"
      "u9" "password1" 100 200 draw2 draw3 start refl refl refl draw2-IsFresh

logout_ends_token_example :
    let (r, s') = logout memory toy default_settings "raw1" 100 start in
    (memory.scalar (has_hash "raw1") start.refresh_tokens ≡ none
      → logout memory toy default_settings "raw1" 100 start
        ≡ (raised (unauthorized_error "Invalid refresh token"), start))
    × ((t : RefreshToken)
        → memory.scalar (has_hash "raw1") start.refresh_tokens ≡ some t
        → (r ≡ ok tt)
          × ((refresh memory toy default_settings "raw1" 110 draw2 s').0
              ≡ raised (unauthorized_error "Invalid refresh token")))
logout_ends_token_example = logout_ends_token memory toy default_settings "raw1" 100 110 draw2 start

-- A database in which every token has a user.
abbrev owned : Database memory
owned = record start { refresh_tokens = live ∷ spent ∷ [] }

owned-IsValid : IsValid memory owned
owned-IsValid = record {
  user_ids = (refl, tt);
  emails = (refl, tt);
  jtis = (refl, (refl, tt));
  hashes = (refl, (refl, tt));
  owners = (refl, (refl, tt));
}

abbrev history : List Request
history =
    rotation "raw1" 100 draw2
    ∷ registration "bob@example.com" "password1" "salt" "u9" 110 draw3
    ∷ rotation "raw0" 120 draw2
    ∷ revocation "raw3" 130
    ∷ []

revoked_forever_example :
    memory.scalar (has_jti "j0") (serve memory toy default_settings history owned).refresh_tokens
    ≡ some spent
revoked_forever_example =
    revoked_forever memory toy default_settings spent refl history owned owned-IsValid refl

owned-OneLive : OneLive memory owned
owned-OneLive = record { at = λ family. ground arith }

serve-OneLive_example : OneLive memory (serve memory toy default_settings history owned)
unfolding step refresh register issue_tokens
serve-OneLive_example =
    serve-OneLive memory toy default_settings history owned (tt, (refl, (tt, (tt, tt))))
      owned-OneLive
