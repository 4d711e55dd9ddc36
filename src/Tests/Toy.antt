-- ===== src/Tests/Toy.antt =====
-- A cryptography that meets the laws and hides nothing: a hash is the text itself, a password of
-- more than 72 characters is refused, and a token is its payload until it expires.
use Prim.Native.String.{count}
use parcel_delivery_api.Base.{
  ℕ, ◌≡◌, refl, String, Bool, true, false, Option, none, some, arith, leb, ltb, ◌==◌, eq_refl,
  if◌then◌else◌, lt→leb, le→leb,
}
use parcel_delivery_api.Core.Crypto.{Crypto, CryptoLaws, Payload}
use parcel_delivery_api.Tests.Wire.{put, get, get-put}

abbrev unexpired : ℕ → Option ℕ → Bool
unexpired now none = true
unexpired now (some exp) = if leb exp now then false else true

pub decode : String → ℕ → Option Payload
decode token now = if unexpired now (get token).exp then some (get token) else none

abbrev pub toy : Crypto
toy = record {
  sha256 = λ t. t;
  hashpw = λ password salt. if ltb 72 (count password) then none else some password;
  checkpw = λ password hashed. if ltb 72 (count password) then none else some (password == hashed);
  jwt_encode = λ p key algorithm. put p;
  jwt_decode = λ token key algorithm issuer audience now. decode token now;
}

checkpw-hashpw :
    (password salt hashed : String)
    → toy.hashpw password salt ≡ some hashed
    → toy.checkpw password hashed ≡ some true
checkpw-hashpw password salt hashed h = ground (arith, eq_refl hashed)

decode-put :
    (p : Payload) (now : ℕ) → decode (put p) now ≡ (if unexpired now p.exp then some p else none)
unfolding decode
decode-put p now = rw (get-put p) refl

pub toy_laws : CryptoLaws toy
toy_laws = record {
  checkpw-hashpw = checkpw-hashpw;
  decode-encode =
      λ p key algorithm issuer audience now exp iat nbf sub jti e6 e7 e1 e2 e3 e4 e5 le1 le2 lt.
        rw decode-put (ground (arith, e1, lt→leb exp now lt));
  decode_expired = λ p key algorithm issuer audience now exp e late.
      rw decode-put (ground (arith, e, le→leb exp now late));
}
