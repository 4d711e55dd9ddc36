-- ===== src/Core/Text.antt =====
-- Python's `" ".join(words)` and `text.split()`, and the round trip between them.
pub mod RoundTrip
pub mod Search
pub mod Order
use Prim.Native.Char.{Char, code}
use Prim.Native.String.{◌++◌ as append}
use parcel_delivery_api.Base.{
  ℕ, ◌≡◌, refl, ap, ◌∙◌, sym, String, Bool, true, false, ◌&&◌, ◌||◌, List, [], ◌∷◌, arith, leb,
  ◌==◌, if◌then◌else◌, Bool-cases, inl, inr,
}
use parcel_delivery_api.Base.Rows.{All, select}

abbrev pub is_empty : String → Bool
is_empty s = s == ""

-- str.isspace of one character
abbrev is_space : ℕ → Bool
is_space c =
    (leb 9 c && leb c 13)
    || (leb 28 c && leb c 32)
    || leb c 133 && leb 133 c
    || leb c 160 && leb 160 c
    || leb c 5760 && leb 5760 c
    || (leb 8192 c && leb c 8202)
    || (leb 8232 c && leb c 8233)
    || leb c 8239 && leb 8239 c
    || leb c 8287 && leb 8287 c
    || leb c 12288 && leb 12288 c

module _ where
  abbrev prepend : Char → List String → List String
  prepend c [] = (String.◌∷◌ c String.[]) ∷ []
  prepend c (w ∷ ws) = (String.◌∷◌ c w) ∷ ws

-- The pieces between the spaces, empty ones included.
pieces : String → List String
pieces String.[] = "" ∷ []
pieces (String.◌∷◌ c s) =
    let rest = pieces s in if is_space (code c) then "" ∷ rest else prepend c rest

abbrev nonempty : String → Bool
nonempty s = if is_empty s then false else true

pub split : String → List String
unfolding pieces
split s = select nonempty (pieces s)

pub join : List String → String
join [] = ""
join (w ∷ []) = w
join (w ∷ v ∷ ws) = append w (append " " (join (v ∷ ws)))

abbrev pub contains : List String → String → Bool
contains [] s = false
contains (w ∷ ws) s = w == s || contains ws s

-- set(required).issubset(scopes)
abbrev pub includes : List String → List String → Bool
includes scopes [] = true
includes scopes (r ∷ required) = contains scopes r && includes scopes required
