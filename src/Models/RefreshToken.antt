-- ===== src/Models/RefreshToken.antt =====
-- app/models/refresh_token.py. A DateTime is the number of seconds since the epoch, in UTC.
use parcel_delivery_api.Base.{ℕ, String, Bool, Option, List, ◌==◌, ◌&&◌, not}
use parcel_delivery_api.Base.Rows.{none_of}
use parcel_delivery_api.Models.User.{User}

pub record RefreshToken : Type 0 where
  pub jti : String
  pub user_id : String
  pub token_hash : String
  pub family_id : String
  pub expires_at : ℕ
  pub revoked_at : Option ℕ
  pub replaced_by_jti : Option String
  pub created_at : ℕ

-- PRIMARY KEY (jti), UNIQUE (token_hash), FOREIGN KEY (user_id) REFERENCES user (id)
abbrev pub accepts_refresh_token : List User → List RefreshToken → RefreshToken → Bool
accepts_refresh_token users tokens t =
    none_of (λ v. v.jti == t.jti) tokens
    && (none_of (λ v. v.token_hash == t.token_hash) tokens
        && not (none_of (λ u. u.id == t.user_id) users))
