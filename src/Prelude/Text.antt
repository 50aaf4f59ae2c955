-- ===== src/Prelude/Text.antt =====
-- Python's tests on text that the sources use.
use Prim.Native.Char.{code}
use Prim.Native.Nat.{ℕ}
use Prim.Native.String.{String}
use mathlib.Core.Bool.{Bool, true, false, ◌&&◌, ◌||◌}
use mathlib.Core.List.{List, [], ◌∷◌}
use text.Mathlib.Text.{◌==◌ as text_eq}
use mathlib.Core.Option.{Option, none, some}
use millforge.Prelude.Tests.{◌==◌, leb, if◌then◌else◌}

-- `==` on `str`
abbrev pub str_eq : String → String → Bool
str_eq = text_eq

-- `str.isspace` of one character
unfoldable pub is_space : ℕ → Bool
is_space c =
    leb 9 c && leb c 13
    || leb 28 c && leb c 32
    || c == 0x85
    || c == 0xa0
    || c == 0x1680
    || leb 0x2000 c && leb c 0x200a
    || c == 0x2028
    || c == 0x2029
    || c == 0x202f
    || c == 0x205f
    || c == 0x3000

-- `not value.strip()`
unfoldable pub is_blank : String → Bool
unfolding is_space
is_blank String.[] = true
is_blank (String.◌∷◌ c s) = is_space (code c) && is_blank s

-- `value in values`, for texts
unfoldable pub str_in : String → List String → Bool
str_in x [] = false
str_in x (y ∷ ys) = text_eq x y || str_in x ys

-- `d.get(k)`, for a dictionary with texts as keys
module _ {ℓ} {V : Type ℓ} where
  unfoldable pub lookup : String → List (String × V) → Option V
  lookup k [] = none
  lookup k ((j, v) ∷ d) = if text_eq j k then some v else lookup k d
