-- ===== src/Api.antt =====
-- The GraphQL API over the schema registry, crates/api/src: its types (types/schema.rs), its errors
-- and the functions that its resolvers share (schema/utils.rs). A `Uuid` is a number; its parser and
-- printer are parameters.
pub mod Mutation
pub mod Query
pub mod Messages
pub mod Subscriptions
pub mod Sent
pub mod Created
pub mod Updated
mod Tests
use common_data_layer.Prelude.{ℕ, String, Option, none, some}
use common_data_layer.Exec.{Result, ok, err, map_err, ok_or, Exec, pure, lift, ◌>>=◌, ◌>>◌}
use common_data_layer.Registry.Types.{SchemaType}
use common_data_layer.Registry.Wire.{Status, from_i32}
use common_data_layer.RpcClients.SchemaRegistry.{SchemaRegistryClient}

pub record Schema : Type 0 where
  pub id : ℕ
  pub name : String
  pub topic : String
  pub query_address : String
  pub schema_type : SchemaType

pub record Definition : Type 0 where
  pub definition : String
  pub version : String

pub record View : Type 0 where
  pub id : ℕ
  pub name : String
  pub expression : String

pub record NewSchema : Type 0 where
  pub name : String
  pub query_address : String
  pub topic : String
  pub definition : String
  pub schema_type : SchemaType

pub record NewView : Type 0 where
  pub name : String
  pub expression : String

pub record NewVersion : Type 0 where
  pub version : String
  pub definition : String

pub record UpdateSchema : Type 0 where
  pub name : Option String
  pub query_address : Option String
  pub topic : Option String
  pub schema_type : Option SchemaType

pub record UpdateView : Type 0 where
  pub name : Option String
  pub expression : Option String

-- What ends a resolver: no connection to the registry, the registry's status (`registry_error`), a
-- text that is no `Uuid`, a number that is no type, or what the publisher of messages refuses.
pub data FieldError : Type 0 where
  no_connection : String → FieldError
  refused : Status → FieldError
  invalid_uuid : String → FieldError
  invalid_schema_type : ℕ → FieldError
  no_publisher publisher_error invalid_payload not_serializable : String → FieldError

-- The connection to the registry, and the texts of a `Uuid`.
pub record Context (S : Type 0) : Type 0 where
  pub connect_to_registry : Result String (Unit {0})
  pub conn : SchemaRegistryClient S
  pub uuid_parse : String → Option ℕ
  pub uuid_text : ℕ → String

abbrev pub Field : Type 0 → Type 0 → Type 0
Field S A = Exec S FieldError A

module _ {S : Type 0} where
  -- A call of the registry, with `map_err(rpc::error::registry_error)?`.
  abbrev pub asking : {A : Type 0} → Exec S Status A → Field S A
  asking m s = let (r, s') = m s in (map_err refused r, s')

  module _ (c : Context S) where
    open c use {conn, uuid_parse, uuid_text}

    abbrev pub connect : Field S (Unit {0})
    connect s = (map_err no_connection c.connect_to_registry, s)

    abbrev pub parse : String → Result FieldError ℕ
    parse text = ok_or (uuid_parse text) (invalid_uuid text)

    unfoldable pub get_view : ℕ → Field S View
    get_view id = do
      view ← asking (conn.get_view (uuid_text id))
      pure (record { id = id; name = view.name; expression = view.jmespath })

    unfoldable pub get_schema : ℕ → Field S Schema
    get_schema id = do
      schema ← asking (conn.get_schema_metadata (uuid_text id))
      schema_type ←
          lift (ok_or (from_i32 schema.schema_type) (invalid_schema_type schema.schema_type))
      pure (record {
        id = id;
        name = schema.name;
        topic = schema.topic;
        query_address = schema.query_address;
        schema_type = schema_type;
      })
