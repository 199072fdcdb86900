-- ===== src/QueryServiceTs/Victoria.antt =====
-- Queries of VictoriaMetrics, crates/query-service-ts/src/victoria.rs.
use Prim.Native.String.{◌++◌ as str_append}
use common_data_layer.Prelude.{String, List, [], ◌∷◌, ◌++◌, str_eq, if◌then◌else◌}
use common_data_layer.Exec.{Result, ok, err, map_err, lift, ◌>>=◌, ◌>>◌}
use common_data_layer.RpcClients.QueryServiceTs.{Range}
use common_data_layer.QueryServiceTs.{
  Http, HttpRequest, post_form, get_query, Task, connect, send_request,
}

pub record RawStatementParameters : Type 0 where
  pub method : String
  pub endpoint : String
  pub queries : List (String × String)

-- The parameter of that name, unless it is empty.
abbrev pub unless_empty : String → String → List (String × String)
unless_empty name value = if str_eq value "" then [] else (name, value) ∷ []

abbrev pub selector : String → String
selector object_id = str_append "{object_id=\"" (str_append object_id "\"}")

unfoldable pub range_queries : Range → List (String × String)
range_queries request =
    ("query", selector request.object_id) ∷ unless_empty "start" request.start
    ++ unless_empty "end" request.end
    ++ unless_empty "step" request.step

-- The request of a method, if it is one of the two that are known.
unfoldable pub request_of : String → String → List (String × String) → Result String HttpRequest
request_of method url queries =
    if str_eq method "POST"
    then ok (post_form url queries)
    else if str_eq method "GET"
    then ok (get_query url queries)
    else err (
        str_append "Method \""
          (str_append method "\" not matched. Only POST and GET are currently supported"))

module _ (http : Http) (addr : String) where
  unfoldable pub query_db : String → String → List (String × String) → Task String
  query_db method endpoint queries = do
    lift (connect http)
    request ← lift (request_of method (str_append addr endpoint) queries)
    response ← send_request http "Error requesting value from VictoriaMetrics: " request
    lift (map_err (str_append "Failed to deserialize response from VictoriaMetrics: ") response)

  unfoldable pub query_by_range : Range → Task String
  query_by_range request = query_db "GET" "/query_range" (range_queries request)

  unfoldable pub query_by_schema : String → Task String
  query_by_schema schema_id =
      query_db "GET" "/query"
        (("query", str_append "{__name__=~\"" (str_append schema_id "_.*\"}")) ∷ [])

  -- With the parser of the statement.
  unfoldable pub query_raw : (String → Result String RawStatementParameters) → String → Task String
  query_raw parse raw_statement = do
    params ← lift (map_err (str_append "Did not deserialize raw_statement: ") (parse raw_statement))
    query_db params.method params.endpoint params.queries
