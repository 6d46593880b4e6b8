-- ===== src/Memory/Order.antt =====
-- The lexicographic order of texts.
use Prim.Native.Char.{code}
use text.Mathlib.TextEquality.{Char-path}
use mathlib.Core.Path.{ap₂}
use hotel_crm.Prelude.{◌≡◌, refl, String, Bool, true, false, arith, ltb, ◌==◌, if◌then◌else◌}

pub before : String → String → Bool
before String.[] String.[] = false
before String.[] (String.◌∷◌ d t) = true
before (String.◌∷◌ c s) String.[] = false
before (String.◌∷◌ c s) (String.◌∷◌ d t) =
    if ltb (code c) (code d) then true else (if code c == code d then before s t else false)

pub before-asym : (s t : String) → before s t ≡ true → before t s ≡ false
unfolding before
before-asym String.[] String.[] h = refl
before-asym String.[] (String.◌∷◌ d t) h = refl
before-asym (String.◌∷◌ c s) String.[] h = ground arith
before-asym (String.◌∷◌ c s) (String.◌∷◌ d t) h = ground (arith, before-asym s t)

pub before_trans : (s t u : String) → before s t ≡ true → before t u ≡ true → before s u ≡ true
unfolding before
before_trans String.[] t String.[] h k = ground (arith, before-asym String.[] t h)
before_trans String.[] t (String.◌∷◌ e u) h k = refl
before_trans (String.◌∷◌ c s) String.[] u h k = ground arith
before_trans (String.◌∷◌ c s) (String.◌∷◌ d t) String.[] h k = ground arith
before_trans (String.◌∷◌ c s) (String.◌∷◌ d t) (String.◌∷◌ e u) h k =
    ground (arith, before_trans s t u)

pub before_total : (s t : String) → before s t ≡ false → before t s ≡ false → s ≡ t
unfolding before
before_total String.[] String.[] h k = refl
before_total String.[] (String.◌∷◌ d t) h k = ground arith
before_total (String.◌∷◌ c s) String.[] h k = ground arith
before_total (String.◌∷◌ c s) (String.◌∷◌ d t) h k =
    ap₂ String.◌∷◌ (Char-path c d (ground arith)) (before_total s t (ground arith) (ground arith))
