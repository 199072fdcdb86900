-- ===== src/QueryServiceTs/Sent.antt =====
-- Which requests a raw query of crates/query-service-ts/src/victoria.rs sends.
use Prim.Native.String.{◌++◌ as str_append}
use common_data_layer.Prelude.{false, String, ◌≡◌, ◌++◌, str_eq}
use common_data_layer.Exec.{Result, ok, err}
use common_data_layer.QueryServiceTs.{Http, HttpRequest, post_form, get_query}
use common_data_layer.QueryServiceTs.Victoria.{RawStatementParameters}

module _ (http : Http) (addr : String) where
  -- The request that a statement asks for, by its method.
  pub data Carries (params : RawStatementParameters) : HttpRequest → Type 0 where
    by_post :
        params.method ≡ "POST"
        → Carries params (post_form (str_append addr params.endpoint) params.queries)
    by_get :
        params.method ≡ "GET"
        → Carries params (get_query (str_append addr params.endpoint) params.queries)

  -- Why a statement is not sent.
  pub data IsWithheld (parse : String → Result String RawStatementParameters) (statement : String)
      : Type 0 where
    unread : (e : String) → parse statement ≡ err e → IsWithheld parse statement
    no_client : (e : String) → http.get_client ≡ err e → IsWithheld parse statement
    other_method :
        (params : RawStatementParameters)
        → parse statement ≡ ok params
        → str_eq params.method "POST" ≡ false
        → str_eq params.method "GET" ≡ false
        → IsWithheld parse statement
