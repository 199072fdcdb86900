-- ===== src/CommandService/Postgres.antt =====
-- The PostgreSQL output of the command service, crates/command-service/src/output/psql/mod.rs.
use Prim.Native.String.{◌++◌ as str_append}
use common_data_layer.Prelude.{ℕ, String, not, if◌then◌else◌}
use common_data_layer.Json.{Value}
use common_data_layer.Exec.{Result, ok, err, map_err}
use common_data_layer.Fallible.{◌>>=◌}
use common_data_layer.Messaging.{BorrowedInsertMessage}
use common_data_layer.Psql.{validate_schema}
use common_data_layer.CommandService.{
  Resolution, storage_layer_failure, command_service_failure, success, OutputPlugin,
}

pub record PostgresOutputConfig : Type 0 where
  pub username : String
  pub password : String
  pub host : String
  pub port : ℕ
  pub dbname : String
  pub schema : String

pub data Error : Type 0 where
  failed_to_connect invalid_schema_name : String → Error

-- With the pool that the connection settings give.
pub record PostgresOutputPlugin (Pool : Type 0) : Type 0 where
  pub pool : Pool
  pub schema : String

unfoldable pub new :
    {Pool : Type 0}
    → (PostgresOutputConfig → Result String Pool)
    → PostgresOutputConfig
    → Result Error (PostgresOutputPlugin Pool)
new build config = do
  pool ← map_err failed_to_connect (build config)
  if not (validate_schema config.schema)
      then err (invalid_schema_name config.schema)
      else ok (record { pool = pool; schema = config.schema })

-- The parameters of the insertion.
pub record Row : Type 0 where
  pub object_id : ℕ
  pub version : ℕ
  pub schema_id : ℕ
  pub payload : Value

-- The pool, serde_json and the server, whose tables are `S`.
pub record PostgresWorld (S : Type 0) : Type 0 where
  pub get_connection : Result String (Unit {0})
  pub parse_value : String → Result String Value
  pub query : String → Row → S → Result String (Unit {0}) × S

abbrev pub store_query : String → String
store_query schema =
    str_append "INSERT INTO "
      (str_append schema ".data (object_id, version, schema_id, payload) VALUES ($1, $2, $3, $4)")

abbrev pub stored : Result String (Unit {0}) → Resolution
stored (ok u) = success
stored (err e) = storage_layer_failure e

module _ {S : Type 0} (w : PostgresWorld S) where
  unfoldable pub handle_message : String → BorrowedInsertMessage → S → Resolution × S
  handle_message schema msg s = elim w.get_connection [
    | err e ↦ (command_service_failure, s)
    | ok u ↦ elim (w.parse_value msg.raw_data) [
      | err e ↦ (command_service_failure, s)
      | ok payload ↦
          let row : Row = record {
            object_id = msg.object_id;
            version = msg.timestamp;
            schema_id = msg.schema_id;
            payload = payload;
          } in
          let store_result = w.query (store_query schema) row s in
          (stored store_result.0, store_result.1)
    ]
  ]

  abbrev pub plugin : {Pool : Type 0} → PostgresOutputPlugin Pool → OutputPlugin S
  plugin made = record { handle_message = handle_message made.schema; name = "PostgreSQL" }
