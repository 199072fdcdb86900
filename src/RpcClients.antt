-- ===== src/RpcClients.antt =====
-- The clients of the services, crates/rpc/src: their errors (error.rs) and the connection to the
-- schema registry (schema_registry.rs). The generated clients are parameters.
pub mod QueryService
pub mod QueryServiceTs
pub mod SchemaRegistry
use Prim.Native.String.{◌++◌ as str_append}
use common_data_layer.Prelude.{ℕ, String}
use common_data_layer.Exec.{Result, map_err}
use common_data_layer.Fallible.{◌>>=◌, ◌>>◌}

pub data ClientError : Type 0 where
  connection_error query_error : (service source : String) → ClientError

unfoldable pub client_error_text : ClientError → String
client_error_text (connection_error service source) =
    str_append "Failed to connect to " (str_append service (str_append ": " source))
client_error_text (query_error service source) =
    str_append "Error returned from " (str_append service (str_append ": " source))

unfoldable pub registry_error : String → ClientError
registry_error error = query_error "schema registry" error

-- A connection, then a call over it.
abbrev pub call :
    {A : Type 0} → String → Result String (Unit {0}) → Result String A → Result ClientError A
call service connected answered = do
  map_err (connection_error service) connected
  map_err (query_error service) answered

-- The schema registry: whether it can be reached, and what it answers.
pub record RegistryClient (T : Type 0) : Type 0 where
  pub reach : Result String (Unit {0})
  pub get_schema_query_address : ℕ → Result String String
  pub get_schema_type : ℕ → Result String T

unfoldable pub connect : {T : Type 0} → RegistryClient T → Result ClientError (Unit {0})
connect registry = map_err (connection_error "schema registry") registry.reach
