-- ===== src/Schemas/Auth.antt =====
-- The constraints of app/schemas/auth.py. Whether a text is an e-mail address is Pydantic's to say.
use parcel_delivery_api.Base.{String, Bool, ◌&&◌, leb}
use parcel_delivery_api.Core.Text.Search.{text_length}

-- UserRegister and UserLogin
pub record Credentials : Type 0 where
  pub email : String
  pub password : String

module _ (email_str : String → Bool) where
  unfoldable pub valid_register : Credentials → Bool
  valid_register body =
      email_str body.email
      && leb 8 (text_length body.password)
      && leb (text_length body.password) 128

  abbrev pub valid_login : Credentials → Bool
  valid_login body = email_str body.email
