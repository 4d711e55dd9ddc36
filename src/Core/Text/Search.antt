-- ===== src/Core/Text/Search.antt =====
-- str.startswith, str.replace and str.strip of Python.
use Prim.Native.Char.{Char, code}
use parcel_delivery_api.Base.{
  ℕ, zero, suc, ◌-◌, ◌==◌, String, Bool, true, false, ◌&&◌, ◌||◌, List, [], ◌∷◌, leb, if◌then◌else◌,
}

abbrev pub same_char : Char → Char → Bool
same_char c d = leb (code c) (code d) && leb (code d) (code c)

abbrev pub starts_with : String → String → Bool
starts_with String.[] s = true
starts_with (String.◌∷◌ c p) String.[] = false
starts_with (String.◌∷◌ c p) (String.◌∷◌ d s) = same_char c d && starts_with p s

-- `text.startswith(prefixes)` with a tuple
abbrev pub starts_with_any : List String → String → Bool
starts_with_any [] s = false
starts_with_any (p ∷ ps) s = starts_with p s || starts_with_any ps s

abbrev pub text_length : String → ℕ
text_length String.[] = zero
text_length (String.◌∷◌ c s) = suc (text_length s)

-- `text[:n]`
abbrev pub first_chars : ℕ → String → String
first_chars zero s = ""
first_chars (suc n) String.[] = ""
first_chars (suc n) (String.◌∷◌ c s) = String.◌∷◌ c (first_chars n s)

-- `text.replace(pattern, "")`, with the number of characters of a match that are still to be skipped
abbrev pub remove_from : String → ℕ → String → String
remove_from pattern skip String.[] = ""
remove_from pattern (suc skip) (String.◌∷◌ c s) = remove_from pattern skip s
remove_from pattern zero (String.◌∷◌ c s) = elim (starts_with pattern (String.◌∷◌ c s)) [
  | true ↦ remove_from pattern (text_length pattern - 1) s
  | false ↦ String.◌∷◌ c (remove_from pattern zero s)
]

abbrev pub remove : String → String → String
remove pattern s = remove_from pattern zero s

-- `text.strip(chars)`
abbrev pub lstrip : (ℕ → Bool) → String → String
lstrip drops String.[] = ""
lstrip drops (String.◌∷◌ c s) =
    let rest = lstrip drops s in if drops (code c) then rest else String.◌∷◌ c s

abbrev pub rstrip : (ℕ → Bool) → String → String
rstrip drops String.[] = ""
rstrip drops (String.◌∷◌ c s) =
    let rest = rstrip drops s in if drops (code c) && rest == "" then "" else String.◌∷◌ c rest

abbrev pub strip : (ℕ → Bool) → String → String
strip drops s = rstrip drops (lstrip drops s)
