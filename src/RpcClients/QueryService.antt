-- ===== src/RpcClients/QueryService.antt =====
-- The client of the query service, crates/rpc/src/query_service.rs.
use common_data_layer.Prelude.{String, List}
use common_data_layer.Exec.{Result}
use common_data_layer.RpcClients.{ClientError, call}

-- The answers of the services at each address; a map of bytes is its entries.
pub record Servers : Type 0 where
  pub reach : String → Result String (Unit {0})
  pub multiple : String → List String → Result String (List (String × String))
  pub by_schema : String → String → Result String (List (String × String))
  pub raw : String → String → Result String String

module _ (servers : Servers) where
  unfoldable pub query_multiple : List String → String → Result ClientError (List (String × String))
  query_multiple object_ids addr =
      call "query service" (servers.reach addr) (servers.multiple addr object_ids)

  unfoldable pub query_by_schema : String → String → Result ClientError (List (String × String))
  query_by_schema schema_id addr =
      call "query service" (servers.reach addr) (servers.by_schema addr schema_id)

  unfoldable pub query_raw : String → String → Result ClientError String
  query_raw raw_statement addr =
      call "query service" (servers.reach addr) (servers.raw addr raw_statement)
