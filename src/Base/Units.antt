-- ===== src/Base/Units.antt =====
-- A text that the program walks: its UTF-16 code units.
use Prim.Native.Nat.{ℕ, zero, suc}
use Prim.Native.Char.{code}
use Prim.Native.String.{String}
use mathlib.Core.Bool.{Bool, true, false, ◌&&◌}
use mathlib.Core.List.{List, [], ◌∷◌}
use wiregrid.Base.Tests.{◌==◌, leb}

abbrev pub Units : Type 0
Units = List ℕ

-- The units of a text in ASCII, such as the literals of the source.
abbrev pub codes : String → Units
codes String.[] = []
codes (String.◌∷◌ c s) = code c ∷ codes s

-- `text.startsWith(token)`, or `text.slice(0, token.length) === token`.
unfoldable pub starts : Units → Units → Bool
starts s [] = true
starts [] (c ∷ token) = false
starts (d ∷ s) (c ∷ token) = d == c && starts s token

unfoldable pub same_units : Units → Units → Bool
same_units [] [] = true
same_units (c ∷ s) (d ∷ t) = c == d && same_units s t
same_units _ _ = false

abbrev pub between : ℕ → ℕ → ℕ → Bool
between low high c = leb low c && leb c high

-- A text cut in two.
pub record Cut : Type 0 where
  pub taken : Units
  pub left : Units

abbrev pub cons : ℕ → Cut → Cut
cons c k = record { taken = c ∷ k.taken; left = k.left }

unfoldable pub split_at : ℕ → Units → Cut
split_at zero s = record { taken = []; left = s }
split_at (suc n) [] = record { taken = []; left = [] }
split_at (suc n) (c ∷ s) = cons c (split_at n s)
