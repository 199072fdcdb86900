-- ===== src/QueryServiceTs/Druid.antt =====
-- Queries of Druid, crates/query-service-ts/src/druid.rs.
use Prim.Native.String.{◌++◌ as str_append}
use common_data_layer.Prelude.{String}
use common_data_layer.Json.{Value, string, array, object, nil, cons, end, field}
use common_data_layer.Exec.{map_err, lift, ◌>>=◌, ◌>>◌}
use common_data_layer.RpcClients.QueryServiceTs.{Range}
use common_data_layer.QueryServiceTs.{Http, post_body, Task, connect, send_request}

-- A filter on one dimension.
abbrev pub selector : String → String → Value
selector dimension value = object (
    field "type" (string "selector")
      (field "dimension" (string dimension) (field "value" (string value) end)))

abbrev pub scan : String → Value → String → String → Value
scan table_name filter granularity interval = object (
    field "queryType" (string "scan") (
      field "dataSource" (string table_name) (
        field "columns" (array nil) (
          field "filter" filter (
            field "granularity" (string granularity)
              (field "intervals" (array (cons (string interval) nil)) end))))))

unfoldable pub range_query : String → Range → Value
range_query table_name request =
    scan table_name
      (object (
        field "type" (string "and") (
          field "fields"
            (array (
              cons (selector "object_id" request.object_id)
                (cons (selector "schema_id" request.schema_id) nil)))
            end)))
      request.step (str_append request.start (str_append "/" request.end))

unfoldable pub schema_query : String → String → Value
schema_query table_name schema_id =
    scan table_name (selector "schema_id" schema_id) "none" "2000-01-01T00:00Z/3000-01-01T00:00Z"

module _ (http : Http) (value_text : Value → String) (addr table_name : String) where
  unfoldable pub query_db : Value → Task String
  query_db query = do
    lift (connect http)
    response ←
        send_request http "Error requesting value from druid: " (post_body addr (value_text query))
    lift (map_err (str_append "Failed to deserialize response from Druid: ") response)

  unfoldable pub query_raw : String → Task String
  query_raw query = do
    lift (connect http)
    response ← send_request http "Error when querying DRUID with raw query: " (post_body addr query)
    lift (map_err (str_append "Couldn't retrieve respones bytes: ") response)

  unfoldable pub query_by_range : Range → Task String
  query_by_range request = query_db (range_query table_name request)

  unfoldable pub query_by_schema : String → Task String
  query_by_schema schema_id = query_db (schema_query table_name schema_id)
