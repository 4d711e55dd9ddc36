-- ===== src/Tests/Wire.antt =====
-- A text form of token payloads, from which they are read back: the toy `jwt.encode`.
use Prim.Native.Char.{Char, code}
use Prim.Native.String.{◌∷◌ as chr}
use package.text.Mathlib.TextLemmas.{cons-ne-nil}
use parcel_delivery_api.Base.{
  ℕ, zero, suc, ◌≡◌, refl, String, Bool, false, Option, none, some, leb, ◌==◌, eq-false_of_ne,
  if◌then◌else◌, ◌&&◌,
}
use parcel_delivery_api.Core.Crypto.{Claim, text, other, Payload}

is_char : Char → ℕ → Bool
is_char c n = leb (code c) n && leb n (code c)

unfoldable pub put_text : String → String → String
put_text String.[] rest = chr "." rest
put_text (String.◌∷◌ c s) rest = chr "c" (chr c (put_text s rest))

pub get_text : String → String × String
get_text String.[] = ("", "")
get_text (String.◌∷◌ k String.[]) = ("", "")
get_text (String.◌∷◌ k (String.◌∷◌ c s)) =
    let more = get_text s in if is_char k b'.' then ("", chr c s) else (chr c more.0, more.1)

pub get-put_text : (s rest : String) → get_text (put_text s rest) ≡ (s, rest)
unfolding get_text put_text is_char
get-put_text String.[] String.[] = refl
get-put_text String.[] (String.◌∷◌ c rest) = refl
get-put_text (String.◌∷◌ c s) rest = rw (get-put_text s rest) refl

put_number : ℕ → String → String
put_number zero rest = chr "." rest
put_number (suc n) rest = chr "c" (put_number n rest)

get_number : String → ℕ × String
get_number String.[] = (0, "")
get_number (String.◌∷◌ k s) =
    let more = get_number s in if is_char k b'.' then (0, s) else (suc more.0, more.1)

get-put_number : (n : ℕ) (rest : String) → get_number (put_number n rest) ≡ (n, rest)
unfolding get_number put_number is_char
get-put_number zero rest = refl
get-put_number (suc n) rest = rw (get-put_number n rest) refl

put_claim : Option Claim → String → String
put_claim none rest = chr "n" rest
put_claim (some other) rest = chr "o" rest
put_claim (some (text s)) rest = chr "t" (put_text s rest)

get_claim : String → Option Claim × String
get_claim String.[] = (none, "")
get_claim (String.◌∷◌ k s) =
    if is_char k b'n'
    then (none, s)
    else if is_char k b'o'
    then (some other, s)
    else (some (text (get_text s).0), (get_text s).1)

get-put_claim : (c : Option Claim) (rest : String) → get_claim (put_claim c rest) ≡ (c, rest)
unfolding get_claim put_claim is_char
get-put_claim none rest = refl
get-put_claim (some other) rest = refl
get-put_claim (some (text s)) rest = rw (get-put_text s rest) refl

put_time : Option ℕ → String → String
put_time none rest = chr "n" rest
put_time (some n) rest = chr "t" (put_number n rest)

get_time : String → Option ℕ × String
get_time String.[] = (none, "")
get_time (String.◌∷◌ k s) =
    if is_char k b'n' then (none, s) else (some (get_number s).0, (get_number s).1)

get-put_time : (t : Option ℕ) (rest : String) → get_time (put_time t rest) ≡ (t, rest)
unfolding get_time put_time is_char
get-put_time none rest = refl
get-put_time (some n) rest = rw (get-put_number n rest) refl

pub put : Payload → String
put p = put_claim p.sub (
    put_time p.exp (
      put_time p.iat (
        put_time p.nbf (
          put_claim p.jti
            (put_claim p.iss (put_claim p.aud (put_claim p.role (put_claim p.scope ""))))))))

pub chr-nonempty : (c : Char) (s : String) → (chr c s == "") ≡ false
chr-nonempty c s = eq-false_of_ne (chr c s) "" (cons-ne-nil c s)

put_claim-nonempty : (c : Option Claim) (rest : String) → (put_claim c rest == "") ≡ false
unfolding put_claim
put_claim-nonempty none rest = chr-nonempty "n" rest
put_claim-nonempty (some other) rest = chr-nonempty "o" rest
put_claim-nonempty (some (text s)) rest = chr-nonempty "t" (put_text s rest)

pub put-nonempty : (p : Payload) → (put p == "") ≡ false
unfolding put
put-nonempty p = put_claim-nonempty p.sub _

pub get : String → Payload
get s =
    let (sub, s1) = get_claim s in
    let (exp, s2) = get_time s1 in
    let (iat, s3) = get_time s2 in
    let (nbf, s4) = get_time s3 in
    let (jti, s5) = get_claim s4 in
    let (iss, s6) = get_claim s5 in
    let (aud, s7) = get_claim s6 in
    let (role, s8) = get_claim s7 in
    let (scope, s9) = get_claim s8 in
    record {
      sub = sub;
      exp = exp;
      iat = iat;
      nbf = nbf;
      jti = jti;
      iss = iss;
      aud = aud;
      role = role;
      scope = scope;
    }

pub get-put : (p : Payload) → get (put p) ≡ p
unfolding get put
get-put p = simp (get-put_claim, get-put_time)
