-- ===== src/CommandService/Names.antt =====
-- The names of PostgreSQL schemas that the command service writes into its statements:
-- crates/command-service/src/output/psql/mod.rs and crates/utils/src/psql.rs.
use Prim.Native.Char.{code}
use Prim.Native.String.{[] as empty, ◌∷◌ as add_char}
use mathlib.Core.Path.{subst}
use common_data_layer.Prelude.{
  ℕ, String, ◌≡◌, refl, Bool, true, false, ◌&&◌, ◌==◌, ==_iff, inl, inr, Bool-cases, ap,
}
use common_data_layer.Exec.{Result, ok, map_err, ok-injective}
use common_data_layer.Fallible.{and_then-ok}
use common_data_layer.Psql.{validate_schema, is_name_character, occurrences}
use common_data_layer.CommandService.Postgres.{
  PostgresOutputConfig, PostgresOutputPlugin, failed_to_connect, new,
}

and-true : (a b : Bool) → (a && b) ≡ true → (a ≡ true) × (b ≡ true)
and-true true b h = (refl, h)
and-true false b h = cc

pub validate_schema-occurrences :
    (d : ℕ) (schema : String)
    → is_name_character d ≡ false
    → validate_schema schema ≡ true
    → occurrences d schema ≡ 0
unfolding validate_schema
validate_schema-occurrences d empty outside valid = refl
validate_schema-occurrences d (add_char c schema) outside valid =
    let (first, rest) = and-true (is_name_character (code c)) (validate_schema schema) valid in
    elim (Bool-cases (code c == d)) [
      | inl same ↦ cc (ap is_name_character ((==_iff (code c) d).0 same), first, outside)
      | inr other ↦ rw other (validate_schema-occurrences d schema outside rest)
    ]

-- A character other than an ASCII letter, a digit or the underscore stands nowhere in the name that
-- an output which was made writes into its statements.
pub new-occurrences :
    {Pool : Type 0} (build : PostgresOutputConfig → Result String Pool)
    (config : PostgresOutputConfig) (plugin : PostgresOutputPlugin Pool) (d : ℕ)
    → is_name_character d ≡ false
    → new build config ≡ ok plugin
    → occurrences d plugin.schema ≡ 0
unfolding new
new-occurrences build config plugin d outside made =
    let (pool, connected, h) =
      and_then-ok (map_err failed_to_connect (build config)) _ plugin made in
    elim (Bool-cases (validate_schema config.schema)) [
      | inl valid ↦
          subst (λ made. occurrences d made.schema ≡ 0) (ok-injective (rw valid at h))
            (validate_schema-occurrences d config.schema outside valid)
      | inr bad ↦ cc (rw bad at h)
    ]
