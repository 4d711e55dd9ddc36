-- ===== src/Core/Uuid/Accepted.antt =====
-- Which texts are accepted: 32 hexadecimal digits with dashes anywhere, so every `str` of a UUID.
use Prim.Native.Char.{Char, code}
use parcel_delivery_api.Base.{
  ℕ, zero, suc, ◌+◌, ◌/◌, ◌%◌, ◌^◌, ◌≤◌, ◌≡◌, refl, ◌⊎◌, inl, inr, ap, ◌∙◌, String, Bool, true,
  false, arith, ◌&&◌, ◌||◌,
}
use parcel_delivery_api.Core.Text.Search.{
  same_char, starts_with, text_length, remove, remove_from, lstrip, rstrip, strip,
}
use parcel_delivery_api.Core.Uuid.{
  between, is_hex, is_brace, is_space, is_x, digits, no_under, unsigned, is_ascii, is_int16, bare,
  is_uuid, nth, hex_char, hex_padded, dash, uuid_text,
}

abbrev is_plain : ℕ → Bool
is_plain c = is_hex c || between 45 45 c

abbrev pub all_plain : String → Bool
all_plain String.[] = true
all_plain (String.◌∷◌ c s) = is_plain (code c) && all_plain s

abbrev all_hex : String → Bool
all_hex String.[] = true
all_hex (String.◌∷◌ c s) = is_hex (code c) && all_hex s

and-left : (a b : Bool) → (a && b) ≡ true → a ≡ true
and-left a b h = ground arith

and-right : (a b : Bool) → (a && b) ≡ true → b ≡ true
and-right a b h = ground arith

hex-range :
    (c : ℕ) → is_hex c ≡ true → (48 ≤ c) × (c ≤ 102) × (between 95 95 c ≡ false) × (is_x c ≡ false)
hex-range c h = ground arith

plain-range : (c : ℕ) → is_plain c ≡ true → (45 ≤ c) × (c ≤ 102)
plain-range c h = ground arith

hex-space : (ascii : Bool) (c : ℕ) → 48 ≤ c → c ≤ 102 → is_space ascii c ≡ false
hex-space ascii c a b = ground arith

not_u : (c : Char) → code c ≤ 102 → same_char "u" c ≡ false
not_u c h = ground arith

not_brace : (c : ℕ) → c ≤ 102 → is_brace c ≡ false
not_brace c h = ground arith

remove-other :
    (p s : String) (c : Char)
    → starts_with p (String.◌∷◌ c s) ≡ false
    → remove_from p zero (String.◌∷◌ c s) ≡ String.◌∷◌ c (remove_from p zero s)
remove-other p s c h = rw (remove_from, h) refl

remove-u : (p s : String) → all_plain s ≡ true → remove_from (String.◌∷◌ "u" p) zero s ≡ s
remove-u p String.[] h = refl
remove-u p (String.◌∷◌ c s) h =
    let r = plain-range (code c) (and-left _ _ h) in
    remove-other (String.◌∷◌ "u" p) s c (ap (λ b. b && starts_with p s) (not_u c r.1))
    ∙ ap (String.◌∷◌ c) (remove-u p s (and-right _ _ h))

lstrip-plain : (s : String) → all_plain s ≡ true → lstrip is_brace s ≡ s
lstrip-plain String.[] h = refl
lstrip-plain (String.◌∷◌ c s) h =
    let r = plain-range (code c) (and-left _ _ h) in rw (not_brace (code c) r.1) refl

rstrip-plain : (s : String) → all_plain s ≡ true → rstrip is_brace s ≡ s
rstrip-plain String.[] h = refl
rstrip-plain (String.◌∷◌ c s) h =
    let r = plain-range (code c) (and-left _ _ h) in
    rw (not_brace (code c) r.1) (ap (String.◌∷◌ c) (rstrip-plain s (and-right _ _ h)))

bare-plain : (s : String) → all_plain s ≡ true → bare s ≡ remove "-" s
bare-plain s h =
    ap (λ t. remove "-" (strip is_brace (remove "uuid:" t))) (remove-u "rn:" s h)
    ∙ ap (λ t. remove "-" (strip is_brace t)) (remove-u "uid:" s h)
    ∙ ap (λ t. remove "-" (rstrip is_brace t)) (lstrip-plain s h)
    ∙ ap (remove "-") (rstrip-plain s h)

digits-hex : (ascii : Bool) (s : String) → all_hex s ≡ true → digits ascii true false s ≡ true
digits-hex ascii String.[] h = refl
digits-hex ascii (String.◌∷◌ c s) h =
    let e : is_hex (code c) ≡ true = and-left (is_hex (code c)) (all_hex s) h in
    rw e (digits-hex ascii s (and-right (is_hex (code c)) (all_hex s) h))

no_under-hex :
    (ascii : Bool) (c : Char) (s : String)
    → all_hex (String.◌∷◌ c s) ≡ true
    → no_under ascii (String.◌∷◌ c s) ≡ true
no_under-hex ascii c s h =
    let e : is_hex (code c) ≡ true = and-left (is_hex (code c)) (all_hex s) h in
    let r = hex-range (code c) e in
    rw (r.2, e) (digits-hex ascii s (and-right (is_hex (code c)) (all_hex s) h))

unsigned-hex :
    (ascii : Bool) (c : Char) (s : String)
    → all_hex (String.◌∷◌ c s) ≡ true
    → unsigned ascii (String.◌∷◌ c s) ≡ true
unsigned-hex ascii c String.[] h = no_under-hex ascii c "" h
unsigned-hex ascii c (String.◌∷◌ x s) h =
    let t = and-right (is_hex (code c)) (all_hex (String.◌∷◌ x s)) h in
    let r = hex-range (code x) (and-left (is_hex (code x)) (all_hex s) t) in
    let no_prefix : (between 48 48 (code c) && is_x (code x)) ≡ false = ground (arith, r.3) in
    rw no_prefix (no_under-hex ascii c (String.◌∷◌ x s) h)

not_sign : (c : ℕ) → 48 ≤ c → (between 43 43 c || between 45 45 c) ≡ false
not_sign c h = ground arith

-- A text of hexadecimal digits, at least one, is a number in base 16.
is_int16-hex :
    (c : Char) (s : String) → all_hex (String.◌∷◌ c s) ≡ true → is_int16 (String.◌∷◌ c s) ≡ true
is_int16-hex c s h =
    let r = hex-range (code c) (and-left (is_hex (code c)) (all_hex s) h) in
    let ascii = is_ascii (String.◌∷◌ c s) in
    rw (hex-space ascii (code c) r.0 r.1, not_sign (code c) r.0) (unsigned-hex ascii c s h)

dash-or_hex :
    (c : Char)
    → is_plain (code c) ≡ true
    → (same_char "-" c ≡ true) ⊎ ((same_char "-" c ≡ false) × (is_hex (code c) ≡ true))
dash-or_hex c h = ground arith

remove-dash_char :
    (c : Char) (s : String) → same_char "-" c ≡ true → remove "-" (String.◌∷◌ c s) ≡ remove "-" s
remove-dash_char c s h = rw (remove_from, ap (λ b. b && true) h) refl

remove-kept_char :
    (c : Char) (s : String)
    → same_char "-" c ≡ false
    → remove "-" (String.◌∷◌ c s) ≡ String.◌∷◌ c (remove "-" s)
remove-kept_char c s h = remove-other "-" s c (ap (λ b. b && true) h)

remove-all_hex : (s : String) → all_plain s ≡ true → all_hex (remove "-" s) ≡ true
remove-all_hex String.[] h = refl
remove-all_hex (String.◌∷◌ c s) h =
    let ih = remove-all_hex s (and-right (is_plain (code c)) (all_plain s) h) in
    elim (dash-or_hex c (and-left (is_plain (code c)) (all_plain s) h)) [
      | inl d ↦ ap all_hex (remove-dash_char c s d) ∙ ih
      | inr (d, e) ↦
          ap all_hex (remove-kept_char c s d) ∙ ap (λ b. b && all_hex (remove "-" s)) e ∙ ih
    ]

zero-ne : ◌≡◌ {A = ℕ} 0 32 → ⊥
zero-ne h = omega (arith, h)

is_int16-all_hex : (t : String) → all_hex t ≡ true → text_length t ≡ 32 → is_int16 t ≡ true
is_int16-all_hex String.[] h n = absurd (zero-ne n)
is_int16-all_hex (String.◌∷◌ c s) h n = is_int16-hex c s h

-- 32 hexadecimal digits, with dashes wherever they stand, are accepted.
pub is_uuid-plain :
    (s : String) → all_plain s ≡ true → text_length (remove "-" s) ≡ 32 → is_uuid s ≡ true
unfolding is_uuid
is_uuid-plain s h n =
    let digits_only = is_int16-all_hex (remove "-" s) (remove-all_hex s h) n in
    rw (bare-plain s h, n, digits_only) refl

nth-hex : (t : String) (n : ℕ) → all_hex t ≡ true → is_hex (code (nth t n)) ≡ true
nth-hex String.[] n h = refl
nth-hex (String.◌∷◌ c t) zero h = and-left (is_hex (code c)) (all_hex t) h
nth-hex (String.◌∷◌ c t) (suc n) h = nth-hex t n (and-right (is_hex (code c)) (all_hex t) h)

hex-plain :
    (c : Char) → is_hex (code c) ≡ true → (is_plain (code c) ≡ true) × (same_char "-" c ≡ false)
hex-plain c h = ground arith

hex_char-plain :
    (n : ℕ) → (is_plain (code (hex_char n)) ≡ true) × (same_char "-" (hex_char n) ≡ false)
hex_char-plain n = hex-plain (hex_char n) (nth-hex "0123456789abcdef" n refl)

padded-plain :
    (k n : ℕ) (rest : String) → all_plain rest ≡ true → all_plain (hex_padded k n rest) ≡ true
unfolding hex_padded
padded-plain zero n rest h = h
padded-plain (suc k) n rest h = rw ((hex_char-plain (n / 16 ^ k % 16)).0) (padded-plain k n rest h)

padded-length :
    (k n : ℕ) (rest : String)
    → text_length (remove "-" (hex_padded k n rest)) ≡ k + text_length (remove "-" rest)
unfolding hex_padded
padded-length zero n rest = omega arith
padded-length (suc k) n rest =
    let c = hex_char (n / 16 ^ k % 16) in
    let e =
      ap text_length
        (remove-kept_char c (hex_padded k n rest) (hex_char-plain (n / 16 ^ k % 16)).1) in
    omega (arith, e, padded-length k n rest)

-- A group of digits and the dash after it.
abbrev group : ℕ → ℕ → String → String
group k n rest = hex_padded k n (dash rest)

group-plain : (k n : ℕ) (rest : String) → all_plain rest ≡ true → all_plain (group k n rest) ≡ true
group-plain k n rest h = padded-plain k n (dash rest) h

group-length :
    (k n : ℕ) (rest : String)
    → text_length (remove "-" (group k n rest)) ≡ k + text_length (remove "-" rest)
group-length k n rest =
    padded-length k n (dash rest) ∙ ap (λ t. k + text_length t) (remove-dash_char "-" rest refl)

-- Python accepts the text of every UUID.
pub uuid_text-accepted : (n : ℕ) → is_uuid (uuid_text n) ≡ true
uuid_text-accepted n =
    let d = hex_padded 12 n "" in
    let c = group 4 (n / 16 ^ 12) d in
    let b = group 4 (n / 16 ^ 16) c in
    let a = group 4 (n / 16 ^ 20) b in
    is_uuid-plain (uuid_text n)
      (group-plain 8 (n / 16 ^ 24) a (
        group-plain 4 (n / 16 ^ 20) b (
          group-plain 4 (n / 16 ^ 16) c
            (group-plain 4 (n / 16 ^ 12) d (padded-plain 12 n "" refl)))))
      (omega (
        arith,
        group-length 8 (n / 16 ^ 24) a,
        group-length 4 (n / 16 ^ 20) b,
        group-length 4 (n / 16 ^ 16) c,
        group-length 4 (n / 16 ^ 12) d,
        padded-length 12 n "",
      ))
