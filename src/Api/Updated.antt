-- ===== src/Api/Updated.antt =====
-- What an update of a view through the GraphQL API answers: crates/api/src/schema/mutation.rs over
-- crates/schema-registry/src/rpc.rs and db.rs.
use common_data_layer.Prelude.{ℕ, ◌≡◌, refl, some}
use common_data_layer.Exec.{ok, when_some}
use common_data_layer.Registry.Types
use common_data_layer.Registry.Types.{ViewUpdate}
use common_data_layer.Registry.Externals.{Externals}
use common_data_layer.Registry.Laws.{IsPropertyGraph, IsCodec}
use common_data_layer.Registry.Replication.{ReplicationEvent, replicate_message}
use common_data_layer.Registry.Update
use common_data_layer.Registry.Wire.{Wire}
use common_data_layer.Registry.Rpc
use common_data_layer.Registry.Rpc.{Server}
use common_data_layer.Registry.Rpc.Queries
use common_data_layer.Registry.Views.{StoredView, update_view-get_view, or_else}
use common_data_layer.RpcClients.SchemaRegistry.{served}
use common_data_layer.Api.{View, UpdateView, Context, get_view}
use common_data_layer.Api.Query.{view}
use common_data_layer.Api.Mutation.{update_view}

-- An API whose connection to a registry is open.
abbrev pub over : (x : Externals) → Wire → Context (Server x.Db)
over x w = record {
  connect_to_registry = ok tt;
  conn = served x w;
  uuid_parse = x.uuid_parse;
  uuid_text = w.uuid_text;
}

module _ (x : Externals) (g : IsPropertyGraph x) (cd : IsCodec x) (w : Wire) where
  abbrev pub updated_view : ℕ → UpdateView → Types.View → View
  updated_view id update v = record {
    id = id;
    name = or_else update.name v.name;
    expression = or_else update.expression v.jmespath;
  }

  -- An update of a stored view through the API, whose new expression, if there is one, is accepted,
  -- answers with the view as updated: what the update names is new, the rest as before. A query for
  -- the view then answers the same.
  pub update_view-answer :
      (id : ℕ) (update : UpdateView) (v : Types.View) (s : Server x.Db)
      → x.uuid_parse (w.uuid_text id) ≡ some id
      → StoredView x g cd id v s.db
      → when_some update.expression (Update.validate_view x) s.db ≡ (ok tt, s.db)
      → (s' : Server x.Db) × (update_view (over x w) id update s
          ≡ (ok (updated_view id update v), s'))
        × (view (over x w) id s' ≡ (ok (updated_view id update v), s'))
  unfolding update_view view get_view Rpc.update_view Rpc.parse_uuid Queries.get_view
  update_view-answer id update v s parsed h valid =
      let u : ViewUpdate = record { name = update.name; jmespath = update.expression } in
      let (db', updated, read) = update_view-get_view x g cd id u v s.db h valid in
      (
        record {
          db = db';
          replication = replicate_message (ReplicationEvent.update_view id u) s.replication;
        },
        rw (parsed, updated, read) refl,
        rw (parsed, read) refl,
      )
