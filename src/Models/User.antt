-- ===== src/Models/User.antt =====
-- app/models/user.py. A DateTime is the number of seconds since the epoch, in UTC.
use parcel_delivery_api.Base.{ℕ, String, Bool, List, ◌==◌, ◌&&◌}
use parcel_delivery_api.Base.Rows.{none_of}

pub record User : Type 0 where
  pub id : String
  pub email : String
  pub hashed_password : String
  pub role : String
  pub created_at : ℕ

-- PRIMARY KEY (id), UNIQUE (email)
abbrev pub accepts_user : List User → User → Bool
accepts_user users u = none_of (λ v. v.id == u.id) users && none_of (λ v. v.email == u.email) users
