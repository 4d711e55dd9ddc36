-- ===== src/Core/Uuid.antt =====
-- Python's `UUID(text)`, as far as it accepts or refuses a text, and `str` of a UUID. The text is that
-- of a header, of characters up to 255.
pub mod Accepted
use Prim.Native.Char.{Char, code}
use parcel_delivery_api.Base.{
  ℕ, zero, suc, ◌/◌, ◌%◌, ◌^◌, String, Bool, true, false, ◌&&◌, ◌||◌, not, leb, if◌then◌else◌, ◌==◌,
}
use parcel_delivery_api.Core.Text.Search.{text_length, remove, strip}

abbrev pub between : ℕ → ℕ → ℕ → Bool
between low high c = leb low c && leb c high

abbrev pub is_hex : ℕ → Bool
is_hex c = between 48 57 c || between 97 102 c || between 65 70 c

abbrev pub is_brace : ℕ → Bool
is_brace c = between 123 123 c || between 125 125 c

abbrev pub is_ascii : String → Bool
is_ascii String.[] = true
is_ascii (String.◌∷◌ c s) = leb (code c) 127 && is_ascii s

-- The spaces around the digits of `int(text, 16)`: those of C, and in a text that is not all ASCII also
-- what str.isspace takes for one.
abbrev pub is_space : Bool → ℕ → Bool
is_space ascii c =
    between 9 13 c
    || between 32 32 c
    || not ascii && (between 28 31 c || between 133 133 c || between 160 160 c)

abbrev pub all_space : Bool → String → Bool
all_space ascii String.[] = true
all_space ascii (String.◌∷◌ c s) = is_space ascii (code c) && all_space ascii s

-- The digits with single underscores between them, and the spaces after them; `some_digit` and `under`
-- say whether a digit has been read, and whether the character before was an underscore.
abbrev pub digits : Bool → Bool → Bool → String → Bool
digits ascii some_digit under String.[] = some_digit && not under
digits ascii some_digit under (String.◌∷◌ c s) =
    let after_digit = digits ascii true false s in
    let after_under = digits ascii some_digit true s in
    if is_hex (code c)
    then after_digit
    else if between 95 95 (code c)
    then not under && after_under
    else some_digit && not under && all_space ascii (String.◌∷◌ c s)

-- An underscore may follow the prefix "0x"; no other one may come first.
abbrev pub no_under : Bool → String → Bool
no_under ascii String.[] = false
no_under ascii (String.◌∷◌ c s) =
    if between 95 95 (code c) then false else digits ascii false false (String.◌∷◌ c s)

abbrev pub after_prefix : Bool → String → Bool
after_prefix ascii String.[] = false
after_prefix ascii (String.◌∷◌ c s) =
    if between 95 95 (code c) then no_under ascii s else no_under ascii (String.◌∷◌ c s)

abbrev pub is_x : ℕ → Bool
is_x c = between 120 120 c || between 88 88 c

abbrev pub unsigned : Bool → String → Bool
unsigned ascii (String.◌∷◌ c (String.◌∷◌ x s)) =
    if between 48 48 (code c) && is_x (code x)
    then after_prefix ascii s
    else no_under ascii (String.◌∷◌ c (String.◌∷◌ x s))
unsigned ascii s = no_under ascii s

abbrev pub signed : Bool → String → Bool
signed ascii String.[] = false
signed ascii (String.◌∷◌ c s) =
    if between 43 43 (code c) || between 45 45 (code c)
    then unsigned ascii s
    else unsigned ascii (String.◌∷◌ c s)

abbrev pub skip_space : Bool → String → Bool
skip_space ascii String.[] = false
skip_space ascii (String.◌∷◌ c s) =
    let later = skip_space ascii s in
    if is_space ascii (code c) then later else signed ascii (String.◌∷◌ c s)

-- Whether `int(text, 16)` returns
abbrev pub is_int16 : String → Bool
is_int16 s = skip_space (is_ascii s) s

abbrev pub is_32 : ℕ → Bool
is_32 n = leb n 32 && leb 32 n

-- What `UUID` makes of its argument before it reads the number
abbrev pub bare : String → String
bare s = remove "-" (strip is_brace (remove "uuid:" (remove "urn:" s)))

-- Whether `UUID(text)` returns; a number of 32 digits is always below 1 << 128.
unfoldable pub is_uuid : String → Bool
is_uuid s = let hex = bare s in is_32 (text_length hex) && is_int16 hex

abbrev pub nth : String → ℕ → Char
nth String.[] n = "0"
nth (String.◌∷◌ c s) zero = c
nth (String.◌∷◌ c s) (suc n) = nth s n

abbrev pub hex_char : ℕ → Char
hex_char n = nth "0123456789abcdef" n

-- The last `count` hexadecimal digits of `n`, before `rest`
unfoldable pub hex_padded : ℕ → ℕ → String → String
hex_padded zero n rest = rest
hex_padded (suc count) n rest =
    String.◌∷◌ (hex_char (n / 16 ^ count % 16)) (hex_padded count n rest)

abbrev pub dash : String → String
dash s = String.◌∷◌ "-" s

-- `str` of the UUID with that number
abbrev pub uuid_text : ℕ → String
uuid_text n = hex_padded 8 (n / 16 ^ 24) (
    dash (
      hex_padded 4 (n / 16 ^ 20) (
        dash (
          hex_padded 4 (n / 16 ^ 16)
            (dash (hex_padded 4 (n / 16 ^ 12) (dash (hex_padded 12 n ""))))))))
