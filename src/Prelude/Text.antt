-- ===== src/Prelude/Text.antt =====
-- `join` of a list of texts.
use Prim.Native.String.{String, ◌++◌ as str_append}
use mathlib.Core.List.{List, [], ◌∷◌}

abbrev pub join_rest : String → List String → String
join_rest separator [] = ""
join_rest separator (x ∷ xs) = str_append separator (str_append x (join_rest separator xs))

abbrev pub join : String → List String → String
join separator [] = ""
join separator (x ∷ xs) = str_append x (join_rest separator xs)
