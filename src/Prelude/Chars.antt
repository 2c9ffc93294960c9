-- ===== src/Prelude/Chars.antt =====
-- Characters of a text.
use Prim.Native.Nat.{ℕ, suc}
use Prim.Native.String.{String, [], ◌∷◌}

-- `len(s)`, in code points
abbrev pub char_count : String → ℕ
char_count [] = 0
char_count (c ∷ s) = suc (char_count s)
