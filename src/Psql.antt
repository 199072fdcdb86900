-- ===== src/Psql.antt =====
-- The check of the name of a PostgreSQL schema, crates/utils/src/psql.rs.
use Prim.Native.Char.{code}
use Prim.Native.String.{String, [], ◌∷◌}
use common_data_layer.Prelude.{ℕ, suc, Bool, true, ◌&&◌, ◌||◌, ◌==◌, leb, if◌then◌else◌}

-- `is_ascii_alphanumeric`
abbrev pub is_ascii_alphanumeric : ℕ → Bool
is_ascii_alphanumeric c = leb 48 c && leb c 57 || leb 65 c && leb c 90 || leb 97 c && leb c 122

abbrev pub is_name_character : ℕ → Bool
is_name_character c = c == 95 || is_ascii_alphanumeric c

unfoldable pub validate_schema : String → Bool
validate_schema [] = true
validate_schema (c ∷ schema) = is_name_character (code c) && validate_schema schema

-- How often a character occurs.
abbrev pub occurrences : ℕ → String → ℕ
occurrences d [] = 0
occurrences d (c ∷ s) = let rest = occurrences d s in if code c == d then suc rest else rest
