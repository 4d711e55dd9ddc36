-- ===== src/Core/Text/RoundTrip.antt =====
-- The round trip of `join` and `split`.
use Prim.Native.Char.{code}
use Prim.Native.String.{◌++◌ as append}
use text.Mathlib.TextLemmas.{nil-append, cons-append}
use parcel_delivery_api.Base.{
  ◌≡◌, refl, String, Bool, true, false, List, [], ◌∷◌, arith, ◌&&◌, if◌then◌else◌,
}
use parcel_delivery_api.Base.Rows.{All}
use parcel_delivery_api.Core.Text.{is_empty, is_space, pieces, split, join}

-- No character of the word is a space.
abbrev pub no_space : String → Bool
no_space String.[] = true
no_space (String.◌∷◌ c s) = (if is_space (code c) then false else true) && no_space s

-- A word: not empty, and with no space in it.
abbrev pub IsWord : String → Type 0
IsWord w = (is_empty w ≡ false) × (no_space w ≡ true)

pieces-no_space : (w : String) → no_space w ≡ true → pieces w ≡ w ∷ []
unfolding pieces
pieces-no_space String.[] h = refl
pieces-no_space (String.◌∷◌ c s) h = ground (arith, pieces-no_space s)

pieces-append : (w s : String) → no_space w ≡ true → pieces (append w (append " " s)) ≡ w ∷ pieces s
unfolding pieces
pieces-append String.[] s h = rw (nil-append, cons-append, nil-append) refl
pieces-append (String.◌∷◌ c w) s h = rw cons-append (ground (arith, pieces-append w s))

-- Words that are joined by a space and split again come back.
pub split-join : (ws : List String) → All IsWord ws → split (join ws) ≡ ws
unfolding split join pieces
split-join [] h = refl
split-join (w ∷ []) h = rw (pieces-no_space w h.0.1) (ground arith)
split-join (w ∷ v ∷ ws) h =
    rw (pieces-append w (join (v ∷ ws)) h.0.1) (ground (arith, split-join (v ∷ ws) h.1))
