-- ===== src/QueryService.antt =====
-- The query service over PostgreSQL, crates/query-service/src/psql.rs.
pub mod Requests
use Prim.Native.String.{◌++◌ as str_append}
use common_data_layer.Prelude.{
  ℕ, suc, String, Option, none, some, List, [], ◌∷◌, not, str_eq, if◌then◌else◌,
}
use common_data_layer.Json.{Value}
use common_data_layer.Exec.{Result, ok, err, map_err}
use common_data_layer.Fallible.{◌>>=◌, ◌>>◌, collect_map}
use common_data_layer.Psql.{validate_schema}

-- A status with its message.
pub data Status : Type 0 where
  internal invalid_argument : String → Status

pub record PsqlConfig : Type 0 where
  pub username : String
  pub password : String
  pub host : String
  pub port : ℕ
  pub dbname : String
  pub schema : String

pub record PsqlQuery (Pool : Type 0) : Type 0 where
  pub pool : Pool
  pub schema : String

-- With the pool that the connection settings give; an error is its text.
unfoldable pub load :
    {Pool : Type 0}
    → (PsqlConfig → Result String Pool)
    → PsqlConfig
    → Result String (PsqlQuery Pool)
load build config = do
  pool ← map_err (λ e. "Failed to build connection pool") (build config)
  if not (validate_schema config.schema)
      then err (
          str_append "Schema `" (
            str_append config.schema
              "` has invalid name. It can contain only ascii letters, numbers and underscores"))
      else ok (record { pool = pool; schema = config.schema })

-- The columns of a row that the handlers read: an id and a payload.
pub record Row : Type 0 where
  pub object_id : ℕ
  pub payload : Value

-- What a simple query answers: a row of columns, each with its text or none, a command with the
-- number of its rows, or something that the service does not know.
pub data SimpleQueryMessage : Type 0 where
  row : List (Result String (Option String)) → SimpleQueryMessage
  command_complete : (command : ℕ) → SimpleQueryMessage
  unknown : SimpleQueryMessage

-- The arguments of a query.
pub data Argument : Type 0 where
  ids : List ℕ → Argument
  id : ℕ → Argument

-- The pool, the server and serde_json, with the texts of numbers and values.
pub record World : Type 0 where
  pub get_connection : Result String (Unit {0})
  pub prepare : String → Result String (Unit {0})
  pub query : String → Argument → Result String (List Row)
  pub simple_query : String → Result String (List SimpleQueryMessage)
  pub parse_uuid : String → Result String ℕ
  pub uuid_text : ℕ → String
  pub value_text : Value → String
  pub number_text : ℕ → String
  pub to_vec : List (List String) → Result String String

abbrev pub internal_error : String → String → Status
internal_error before e = internal (str_append before e)

-- `map.insert(key, value)` of the `HashMap` that a `collect` fills: one value for each key.
abbrev pub put : String → String → List (String × String) → List (String × String)
put k v [] = (k, v) ∷ []
put k v ((j, u) ∷ entries) =
    let rest = put k v entries in if str_eq j k then (k, v) ∷ entries else (j, u) ∷ rest

abbrev pub or_empty : Option String → String
or_empty none = ""
or_empty (some text) = text

abbrev pub latest_of_ids : String → String
latest_of_ids schema =
    str_append "SELECT d.object_id, d.payload FROM (SELECT object_id, max(version) as max FROM " (
      str_append schema (
        str_append ".data WHERE object_id = ANY($1) GROUP BY object_id) maxes JOIN "
          (str_append schema ".data d ON d.object_id = maxes.object_id AND d.version = maxes.max")))

abbrev pub latest_of_schema : String → String
latest_of_schema schema = str_append "SELECT object_id, payload FROM " (
    str_append schema (
      str_append ".data d1 WHERE schema_id = $1 AND d1.version = (SELECT MAX(version) FROM "
        (str_append schema ".data d2 WHERE d2.object_id = d1.object_id)")))

module _ (w : World) where
  unfoldable pub connect : Result Status (Unit {0})
  connect = map_err (internal_error "Unable to connect to database: ") w.get_connection

  unfoldable pub make_query : String → Argument → Result Status (List Row)
  make_query query args = do
    connect
    map_err (internal_error "Unable to prepare query statement: ") (w.prepare query)
    map_err (internal_error "Unable to query data: ") (w.query query args)

  unfoldable pub collect_rows : List Row → List (String × String) → List (String × String)
  collect_rows [] entries = entries
  collect_rows (r ∷ rows) entries =
      collect_rows rows (put (w.uuid_text r.object_id) (w.value_text r.payload) entries)

  unfoldable pub collect_id_payload_rows : List Row → List (String × String)
  collect_id_payload_rows rows = collect_rows rows []

  -- The columns of a row from a number on.
  unfoldable pub columns : ℕ → List (Result String (Option String)) → Result String (List String)
  columns i [] = ok []
  columns i (column ∷ rest) = do
    field ←
        map_err
          (λ e.
            str_append "Error getting data from row at column "
              (str_append (w.number_text i) (str_append ": " e)))
          column
    fields ← columns (suc i) rest
    ok (or_empty field ∷ fields)

  unfoldable pub message_fields : SimpleQueryMessage → Result String (List String)
  message_fields (row cells) = columns 0 cells
  message_fields (command_complete command) = ok (w.number_text command ∷ [])
  message_fields unknown = err "Could not match SimpleQueryMessage"

  unfoldable pub collect_simple_query_messages : List SimpleQueryMessage → Result String String
  collect_simple_query_messages messages = do
    fields ← collect_map message_fields messages
    map_err (str_append "Error serializing data to json: ") (w.to_vec fields)

  unfoldable pub query_multiple : String → List String → Result Status (List (String × String))
  query_multiple schema object_ids = do
    uuids ← map_err invalid_argument (collect_map w.parse_uuid object_ids)
    rows ← make_query (latest_of_ids schema) (ids uuids)
    ok (collect_id_payload_rows rows)

  unfoldable pub query_by_schema : String → String → Result Status (List (String × String))
  query_by_schema schema schema_id = do
    uuid ← map_err invalid_argument (w.parse_uuid schema_id)
    rows ← make_query (latest_of_schema schema) (id uuid)
    ok (collect_id_payload_rows rows)

  unfoldable pub query_raw : String → Result Status String
  query_raw raw_statement = do
    connect
    messages ← map_err (internal_error "Unable to query_raw data: ") (w.simple_query raw_statement)
    map_err (internal_error "Unable to collect simple query messages data: ")
        (collect_simple_query_messages messages)
