-- ===== src/Base/Text.antt =====
-- Texts as the program has them, and what is printed.
use Prim.Native.Nat.{ℕ}
use Prim.Native.Char.{code}
use Prim.Native.String.{String}
use mathlib.Core.List.{List, [], ◌∷◌}

-- The bytes of a text.
abbrev pub codes : String → List ℕ
codes String.[] = []
codes (String.◌∷◌ c s) = code c ∷ codes s

-- A call of kprintf: the format, and the words behind it.
abbrev pub Line : Type 0
Line = String × List ℕ
