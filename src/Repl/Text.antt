-- ===== src/Repl/Text.antt =====
-- The bytes of a literal: its code points, which are ASCII.
use Prim.Native.Char.{code}
use barelog.Prelude.{ℕ, List, [], ◌∷◌}
pub use Prim.Native.String.{String}

abbrev pub codes : String → List ℕ
codes String.[] = []
codes (String.◌∷◌ c s) = code c ∷ codes s
