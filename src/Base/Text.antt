-- ===== src/Base/Text.antt =====
-- Identifiers are texts. Python compares them by code points.
use Prim.Native.Nat.{compare, Ordering}
use Prim.Native.Char.{code}
use Prim.Native.String.{String}
use mathlib.Core.Path.{◌≡◌, refl, ap₂}
use mathlib.Core.Bool.{Bool, true, false}
use mathlib.Core.Logic.{◌⊎◌, inl, inr}
use native.Mathlib.Omega.{arith}
use text.Mathlib.TextEquality.{Char-path}
pub use text.Mathlib.Text.{◌==◌}

-- `s <= t`
unfoldable pub str_leb : String → String → Bool
str_leb String.[] t = true
str_leb (String.◌∷◌ c s) String.[] = false
str_leb (String.◌∷◌ c s) (String.◌∷◌ d t) = elim (compare (code c) (code d)) [
  | Ordering.lt ↦ true
  | Ordering.eq ↦ str_leb s t
  | Ordering.gt ↦ false
]

pub str_leb_total : (s t : String) → (str_leb s t ≡ true) ⊎ (str_leb t s ≡ true)
unfolding str_leb
str_leb_total String.[] t = inl refl
str_leb_total (String.◌∷◌ c s) String.[] = inr refl
str_leb_total (String.◌∷◌ c s) (String.◌∷◌ d t) = ground (arith, str_leb_total s t)

pub str_leb_trans : (s t u : String) → str_leb s t ≡ true → str_leb t u ≡ true → str_leb s u ≡ true
unfolding str_leb
str_leb_trans String.[] t u p q = refl
str_leb_trans (String.◌∷◌ c s) String.[] u p q = ground arith
str_leb_trans (String.◌∷◌ c s) (String.◌∷◌ d t) String.[] p q = ground arith
str_leb_trans (String.◌∷◌ c s) (String.◌∷◌ d t) (String.◌∷◌ e u) p q =
    ground (arith, str_leb_trans s t u)

pub str_leb_antisym : (s t : String) → str_leb s t ≡ true → str_leb t s ≡ true → s ≡ t
unfolding str_leb
str_leb_antisym String.[] String.[] p q = refl
str_leb_antisym String.[] (String.◌∷◌ d t) p q = ground arith
str_leb_antisym (String.◌∷◌ c s) String.[] p q = ground arith
str_leb_antisym (String.◌∷◌ c s) (String.◌∷◌ d t) p q =
    ap₂ String.◌∷◌ (Char-path c d (ground arith))
      (str_leb_antisym s t (ground arith) (ground arith))
