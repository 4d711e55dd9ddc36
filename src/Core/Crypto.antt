-- ===== src/Core/Crypto.antt =====
-- What the service uses of bcrypt, PyJWT and hashlib. None of them is code of the repository, so
-- they are parameters, with their documented behaviour as laws.
use parcel_delivery_api.Base.{ℕ, ◌≤◌, ◌<◌, ◌≡◌, String, Bool, true, Option, none, some}

-- A claim of a JWT payload: a text, or a JSON value of another type.
pub data Claim : Type 0 where
  text : String → Claim
  other : Claim

-- The payload of an access token. An absent key is `none`.
pub record Payload : Type 0 where
  pub sub : Option Claim
  pub exp : Option ℕ
  pub iat : Option ℕ
  pub nbf : Option ℕ
  pub jti : Option Claim
  pub iss : Option Claim
  pub aud : Option Claim
  pub role : Option Claim
  pub scope : Option Claim

pub record Crypto : Type 0 where
  -- sha256(text.encode()).hexdigest()
  pub sha256 : String → String
  -- bcrypt.hashpw(password, salt) and bcrypt.checkpw(password, hash); `none` is a ValueError
  pub hashpw : String → String → Option String
  pub checkpw : String → String → Option Bool
  -- jwt.encode(payload, key, algorithm)
  pub jwt_encode : Payload → String → String → String
  -- jwt.decode(token, key, [algorithm], issuer, audience) at a time; `none` is a PyJWTError
  pub jwt_decode : String → String → String → String → String → ℕ → Option Payload

pub record CryptoLaws (c : Crypto) : Type 0 where
  -- a password matches its own hash
  pub checkpw-hashpw :
      (password salt hashed : String)
      → c.hashpw password salt ≡ some hashed
      → c.checkpw password hashed ≡ some true
  -- a token whose subject and jti are texts decodes to its payload with the key that signed it, from
  -- `nbf` until `exp`
  pub decode-encode :
      (p : Payload) (key algorithm issuer audience : String) (now exp iat nbf : ℕ)
      (sub jti : String)
      → p.sub ≡ some (text sub)
      → p.jti ≡ some (text jti)
      → p.exp ≡ some exp
      → p.iat ≡ some iat
      → p.nbf ≡ some nbf
      → p.iss ≡ some (text issuer)
      → p.aud ≡ some (text audience)
      → iat ≤ now
      → nbf ≤ now
      → now < exp
      → c.jwt_decode (c.jwt_encode p key algorithm) key algorithm issuer audience now ≡ some p
  -- an expired token, and one of another issuer, is refused
  pub decode_expired :
      (p : Payload) (key algorithm issuer audience : String) (now exp : ℕ)
      → p.exp ≡ some exp
      → exp ≤ now
      → c.jwt_decode (c.jwt_encode p key algorithm) key algorithm issuer audience now ≡ none
