-- ===== src/QueryServiceTs.antt =====
-- The timeseries query service, crates/query-service-ts/src: what its two implementations share. The
-- HTTP client and serde_json are parameters.
pub mod Victoria
pub mod Druid
pub mod Sent
mod Tests
use Prim.Native.String.{◌++◌ as str_append}
use common_data_layer.Prelude.{ℕ, String, List, [], ◌∷◌, ◌++◌}
use common_data_layer.Exec.{Result, ok, err, map_err, Exec, lift}

-- A request as it was sent, with the form, the parameters or the body that it carries.
pub data HttpRequest : Type 0 where
  post_form get_query : (url : String) (parameters : List (String × String)) → HttpRequest
  post_body : (url body : String) → HttpRequest

pub record Http : Type 0 where
  pub get_client : Result String (Unit {0})
  -- The response, whose text may fail to be read.
  pub send : HttpRequest → Result String (Result String String)

-- The requests that were sent; an error is the message of a status `internal`.
abbrev pub Task : Type 0 → Type 0
Task A = Exec (List HttpRequest) String A

module _ (http : Http) where
  unfoldable pub connect : Result String (Unit {0})
  connect = map_err (str_append "Unable to connect to database: ") http.get_client

  -- The request goes out also where its answer is an error.
  unfoldable pub send_request : String → HttpRequest → Task (Result String String)
  send_request before request s =
      (map_err (str_append before) (http.send request), s ++ request ∷ [])
