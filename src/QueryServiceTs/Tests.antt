-- ===== src/QueryServiceTs/Tests.antt =====
-- The theorem on raw queries of VictoriaMetrics at a statement with a known method.
use common_data_layer.Prelude.{String, []}
use common_data_layer.Exec.{Result, ok, err}
use common_data_layer.QueryServiceTs.{Http}
use common_data_layer.QueryServiceTs.Victoria.{RawStatementParameters}

abbrev http : Http
http = record { get_client = ok tt; send = λ r. err "no server" }

abbrev parse : String → Result String RawStatementParameters
parse statement = ok (record { method = "GET"; endpoint = "/query"; queries = [] })
