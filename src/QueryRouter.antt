-- ===== src/QueryRouter.antt =====
-- The query router, crates/query-router/src: its cache of schemas (cache.rs), its handlers
-- (handler.rs) and their errors (error.rs).
pub mod Uncached
pub mod Answers
mod Tests
use Prim.Native.String.{◌++◌ as str_append}
use common_data_layer.Prelude.{ℕ, String, Option, none, some, List, [], ◌∷◌, str_eq, if◌then◌else◌}
use common_data_layer.Json.{Value}
use common_data_layer.Exec.{Result, ok, err, map_err, ok_or, Exec, pure, lift, ◌>>=◌, ◌>>◌}
use common_data_layer.Fallible.{and_then, collect_map}
use common_data_layer.Cache.{LruCache}
use common_data_layer.CommandService.Settings.{split}
use common_data_layer.Registry.Types.{SchemaType, document_storage, timeseries}
use common_data_layer.RpcClients.{
  ClientError, RegistryClient, connect, query_error, client_error_text,
}
use common_data_layer.RpcClients.QueryService
use common_data_layer.RpcClients.QueryServiceTs

pub data Error : Type 0 where
  client_error : ClientError → Error
  json_error : String → Error
  single_query_missing_value raw_query_missing_value wrong_value_format : Error

-- The message of the reply with the status 500.
unfoldable pub recover : Error → String
recover (client_error e) = client_error_text e
recover (json_error e) = str_append "Unable to serialize JSON: " e
recover single_query_missing_value = ""
recover raw_query_missing_value = ""
recover wrong_value_format = ""

pub data Body : Type 0 where
  range : (from to step : String) → Body
  raw : (raw_statement : String) → Body
  empty : Body

-- The registry, the query services, serde_json and the texts of UUIDs.
pub record World : Type 0 where
  pub registry : RegistryClient SchemaType
  pub query_service : QueryService.Servers
  pub query_service_ts : QueryServiceTs.Servers
  pub from_slice : String → Result String Value
  pub to_vec : List (String × Value) → Result String String
  pub uuid_text : ℕ → String

-- `map.remove(key)`, the value that it gives.
abbrev pub remove : String → List (String × String) → Option String
remove k [] = none
remove k ((j, v) ∷ values) = if str_eq j k then some v else remove k values

abbrev pub Info : Type 0
Info = String × SchemaType

module _ (w : World) where
  unfoldable pub json_entry : String × String → Result Error (String × Value)
  json_entry entry =
      and_then (map_err json_error (w.from_slice entry.1)) (λ value. ok (entry.0, value))

  unfoldable pub byte_map_to_json_map :
      List (String × String) → Result Error (List (String × Value))
  byte_map_to_json_map values = collect_map json_entry values

  abbrev pub json_reply : List (String × String) → Result Error String
  json_reply values =
      and_then (byte_map_to_json_map values) (λ json. map_err json_error (w.to_vec json))

  unfoldable pub single_document : ℕ → String → Result Error String
  single_document object_id address =
      and_then
        (map_err client_error
          (QueryService.query_multiple w.query_service (w.uuid_text object_id ∷ []) address))
        (λ values. ok_or (remove (w.uuid_text object_id) values) single_query_missing_value)

  -- The match of `query_single`.
  unfoldable pub single_values : ℕ → ℕ → String → SchemaType → Body → Result Error String
  single_values object_id schema_id address document_storage request_body =
      single_document object_id address
  single_values object_id schema_id address timeseries (range from to step) = map_err client_error (
      QueryServiceTs.query_by_range w.query_service_ts (w.uuid_text schema_id)
        (w.uuid_text object_id) from to step address)
  single_values object_id schema_id address timeseries empty = err single_query_missing_value
  single_values object_id schema_id address timeseries (raw raw_statement) = err wrong_value_format

  unfoldable pub multiple_values : String → String → Result Error String
  multiple_values object_ids address =
      and_then
        (map_err client_error
          (QueryService.query_multiple w.query_service (split 44 object_ids) address))
        json_reply

  -- The match of `query_by_schema`.
  unfoldable pub schema_values : ℕ → String → SchemaType → Result Error String
  schema_values schema_id address document_storage =
      and_then
        (map_err client_error
          (QueryService.query_by_schema w.query_service (w.uuid_text schema_id) address))
        json_reply
  schema_values schema_id address timeseries =
      map_err client_error
        (QueryServiceTs.query_by_schema w.query_service_ts (w.uuid_text schema_id) address)

  -- The match of `query_raw`.
  unfoldable pub raw_values : String → SchemaType → Body → Result Error String
  raw_values address document_storage (raw raw_statement) =
      map_err client_error (QueryService.query_raw w.query_service raw_statement address)
  raw_values address timeseries (raw raw_statement) =
      map_err client_error (QueryServiceTs.query_raw w.query_service_ts raw_statement address)
  raw_values address schema_type empty = err raw_query_missing_value
  raw_values address schema_type (range from to step) = err wrong_value_format

  module _ (l : LruCache Info) where
    abbrev pub Task : Type 0 → Type 0
    Task A = Exec l.Cache Error A

    abbrev pub retrieve : ℕ → Task (Option Info)
    retrieve schema_id c = let found = l.get_mut schema_id c in (ok found.0, found.1)

    abbrev pub remember : ℕ → Info → Task (Unit {0})
    remember schema_id info c = (ok tt, l.insert schema_id info c)

    abbrev pub registry_answer : {A : Type 0} → Result String A → Task A
    registry_answer answer =
        lift (map_err (λ e. client_error (query_error "schema registry" e)) answer)

    unfoldable pub get_schema_info : ℕ → Task Info
    get_schema_info schema_id = do
      cached_data ← retrieve schema_id
      elim cached_data [
        | some info ↦ pure info
        | none ↦ do
          lift (map_err client_error (connect w.registry))
          address ← registry_answer (w.registry.get_schema_query_address schema_id)
          schema_type ← registry_answer (w.registry.get_schema_type schema_id)
          let result : Info = (address, schema_type)
          remember schema_id result
          pure result
      ]

    unfoldable pub query_single : ℕ → ℕ → Body → Task String
    query_single object_id schema_id request_body = do
      info ← get_schema_info schema_id
      lift (single_values object_id schema_id info.0 info.1 request_body)

    unfoldable pub query_multiple : String → ℕ → Task String
    query_multiple object_ids schema_id = do
      info ← get_schema_info schema_id
      lift (multiple_values object_ids info.0)

    unfoldable pub query_by_schema : ℕ → Task String
    query_by_schema schema_id = do
      info ← get_schema_info schema_id
      lift (schema_values schema_id info.0 info.1)

    unfoldable pub query_raw : ℕ → Body → Task String
    query_raw schema_id request_body = do
      info ← get_schema_info schema_id
      lift (raw_values info.0 info.1 request_body)
