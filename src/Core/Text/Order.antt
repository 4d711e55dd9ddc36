-- ===== src/Core/Text/Order.antt =====
-- Texts by their characters' numbers, the order of the engine in Db/Memory.
use Prim.Native.Char.{code}
use parcel_delivery_api.Base.{◌≡◌, refl, String, Bool, true, false, ◌&&◌, arith, ltb, if◌then◌else◌}
use parcel_delivery_api.Core.Text.Search.{same_char}

abbrev pub text_le : String → String → Bool
text_le String.[] t = true
text_le (String.◌∷◌ c s) String.[] = false
text_le (String.◌∷◌ c s) (String.◌∷◌ d t) =
    let rest = text_le s t in if ltb (code c) (code d) then true else same_char c d && rest

pub text_le_total : (s t : String) → text_le s t ≡ false → text_le t s ≡ true
text_le_total String.[] t h = ground arith
text_le_total (String.◌∷◌ c s) String.[] h = refl
text_le_total (String.◌∷◌ c s) (String.◌∷◌ d t) h = ground (arith, h, text_le_total s t)
