-- ===== src/RpcClients/QueryServiceTs.antt =====
-- The client of the timeseries query service, crates/rpc/src/query_service_ts.rs.
use common_data_layer.Prelude.{String}
use common_data_layer.Exec.{Result}
use common_data_layer.RpcClients.{ClientError, call}

pub record Range : Type 0 where
  pub schema_id : String
  pub object_id : String
  pub start : String
  pub end : String
  pub step : String

-- The answers of the services at each address.
pub record Servers : Type 0 where
  pub reach : String → Result String (Unit {0})
  pub by_range : String → Range → Result String String
  pub by_schema : String → String → Result String String
  pub raw : String → String → Result String String

module _ (servers : Servers) where
  unfoldable pub query_by_range :
      (schema_id object_id start end step addr : String) → Result ClientError String
  query_by_range schema_id object_id start end step addr =
      call "timeseries query service" (servers.reach addr) (
        servers.by_range addr (record {
          schema_id = schema_id;
          object_id = object_id;
          start = start;
          end = end;
          step = step;
        }))

  unfoldable pub query_by_schema : String → String → Result ClientError String
  query_by_schema schema_id addr =
      call "timeseries query service" (servers.reach addr) (servers.by_schema addr schema_id)

  unfoldable pub query_raw : String → String → Result ClientError String
  query_raw raw_statement addr =
      call "timeseries query service" (servers.reach addr) (servers.raw addr raw_statement)
