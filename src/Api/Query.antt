-- ===== src/Api/Query.antt =====
-- The queries of the GraphQL API over the schema registry, crates/api/src/schema/query.rs.
use Prim.Native.String.{◌++◌ as str_append}
use common_data_layer.Prelude.{ℕ, String, List, [], ◌∷◌, ◌++◌}
use common_data_layer.Exec.{Result, ok, ok_or, pure, lift, ◌>>=◌, ◌>>◌}
use common_data_layer.Fallible
use common_data_layer.Fallible.{collect_map}
use common_data_layer.Registry.Types
use common_data_layer.Registry.Wire.{from_i32}
use common_data_layer.Registry.Rpc.Queries.{SchemaReply}
use common_data_layer.Api.{
  Schema, Definition, View, FieldError, invalid_schema_type, Context, Field, asking, connect, parse,
  get_view, get_schema,
}

module _ {S : Type 0} (c : Context S) where
  open c use {conn, uuid_text}

  unfoldable pub definition : Schema → String → Field S Definition
  definition self version = do
    connect c
    schema_def ← asking (conn.get_schema (record { id = uuid_text self.id; version_req = version }))
    pure (record { version = schema_def.version; definition = schema_def.definition })

  -- The loop over the versions, with the definitions found so far.
  unfoldable pub push_definitions :
      String → List String → List Definition → Field S (List Definition)
  push_definitions id [] definitions = pure definitions
  push_definitions id (version ∷ versions) definitions = do
    schema_def ← asking (conn.get_schema (record { id = id; version_req = str_append "=" version }))
    let found : Definition = record {
      version = schema_def.version;
      definition = schema_def.definition;
    }
    push_definitions id versions (definitions ++ found ∷ [])

  unfoldable pub definitions : Schema → Field S (List Definition)
  definitions self = do
    connect c
    versions ← asking (conn.get_schema_versions (uuid_text self.id))
    push_definitions (uuid_text self.id) versions []

  unfoldable pub view_of : String × Types.View → Result FieldError View
  view_of (text, view) =
      Fallible.and_then (parse c text)
        (λ id. ok (record { id = id; name = view.name; expression = view.jmespath }))

  unfoldable pub views : Schema → Field S (List View)
  views self = do
    connect c
    found ← asking (conn.get_all_views_of_schema (uuid_text self.id))
    lift (collect_map view_of found)

  unfoldable pub schema : ℕ → Field S Schema
  schema id = do connect c; get_schema c id

  unfoldable pub schema_of : String × SchemaReply → Result FieldError Schema
  schema_of (text, reply) = Fallible.and_then (parse c text) λ id.
      Fallible.and_then (ok_or (from_i32 reply.schema_type) (invalid_schema_type reply.schema_type))
        (λ schema_type. ok (record {
          id = id;
          name = reply.name;
          topic = reply.topic;
          query_address = reply.query_address;
          schema_type = schema_type;
        }))

  unfoldable pub schemas : Field S (List Schema)
  schemas = do connect c; found ← asking conn.get_all_schemas; lift (collect_map schema_of found)

  unfoldable pub view : ℕ → Field S View
  view id = do connect c; get_view c id
