-- ===== src/Lanes/Exit/Lines.antt =====
-- src/main.rs: what the host reads of the writer's output, line by line.
use tabularis_postgresql_plu.Base.{ℕ, ◌≢◌, List, [], ◌∷◌, Text, ◌==◌, if◌then◌else◌}

abbrev put_char : ℕ → List Text → List Text
put_char c [] = (c ∷ []) ∷ []
put_char c (l ∷ ls) = (c ∷ l) ∷ ls

-- `str::lines`, for the line feed alone.
unfoldable pub lines : Text → List Text
lines [] = []
lines (c ∷ s) = let rest = lines s in if c == b'\n' then [] ∷ rest else put_char c rest

abbrev pub IsNotLineFeed : ℕ → Type 0
IsNotLineFeed c = c ≢ b'\n'
