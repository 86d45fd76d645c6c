-- ===== src/Base/Paths.antt =====
-- The parts of Go's path/filepath and strings that file names need: the extension, and lower case
-- on ASCII.
use mathlib.Core.List.{reverse}
use Prim.Native.Nat.{ℕ, ◌+◌}
use mathlib.Core.Bool.{true, false, ◌&&◌}
use mathlib.Core.List.{[], ◌∷◌}
use ratatoskr_go.Base.Tests.{◌==◌, leb, if◌then◌else◌}
use ratatoskr_go.Base.Texts.{Text}

abbrev pub to_lower : ℕ → ℕ
to_lower c = if leb 65 c && leb c 90 then c + 32 else c

-- filepath.Ext on the reversed path: what stands after the last dot of the last element, with it.
unfoldable pub ext_from : Text → Text → Text
ext_from seen [] = []
ext_from seen (c ∷ rest) = elim (c == b'/') [
  | true ↦ []
  | false ↦ elim (c == b'.') [ true ↦ c ∷ seen | false ↦ ext_from (c ∷ seen) rest ]
]

unfoldable pub ext : Text → Text
ext path = ext_from [] (reverse path)
