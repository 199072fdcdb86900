-- ===== src/Cli/Printed.antt =====
-- What the command line client prints of a registry: crates/cdl-cli/src/actions/schema.rs over
-- crates/schema-registry/src/rpc.rs and db.rs.
use mathlib.Core.List.{Perm, append-nil, append_assoc}
use common_data_layer.Prelude.{
  ℕ, String, ◌≡◌, refl, sym, ◌∙◌, true, none, some, List, [], ◌∷◌, ◌++◌, map, All, ==_refl,
}
use common_data_layer.Json.{string}
use common_data_layer.Exec.{ok}
use common_data_layer.Fallible.{collect_map}
use common_data_layer.Registry.Types.{Version, topic_name_prop}
use common_data_layer.Registry.Externals.{Externals}
use common_data_layer.Registry.Laws.{IsPropertyGraph, IsCodec, IsVersionOrder, prop_of}
use common_data_layer.Registry.Replication.{ReplicationEvent, replicate_message}
use common_data_layer.Registry.Db
use common_data_layer.Registry.Wire.{Wire}
use common_data_layer.Registry.Rpc
use common_data_layer.Registry.Rpc.{Server}
use common_data_layer.Registry.Rpc.Queries
use common_data_layer.Registry.Metadata.{update_schema_property_found, get_schema_property_value}
use common_data_layer.RpcClients.SchemaRegistry.{served}
use common_data_layer.Cli.{World, Terminal, println_all}
use common_data_layer.Cli.Schema.{
  sort, parse_versions, get_schema_versions, set_schema_topic, get_schema_topic,
}
use common_data_layer.Cli.Sorted.{IsAscending, sort-Perm, sort-IsAscending}

pub println_all-stdout :
    {S : Type 0} (lines : List String) (t : Terminal S)
    → println_all lines t ≡ (ok tt, record t { stdout = t.stdout ++ lines })
unfolding println_all
println_all-stdout [] t = λ i. (ok tt, record t { stdout = sym (append-nil t.stdout) i })
println_all-stdout (line ∷ lines) t =
    println_all-stdout lines (record t { stdout = t.stdout ++ line ∷ [] }) ∙ λ i.
    (ok tt, record t { stdout = append_assoc t.stdout (line ∷ []) lines i })

module _ (x : Externals) (wire : Wire) (w : World (Server x.Db)) where
  -- A client whose connection to the registry is open, with the registry's order of versions.
  abbrev pub over : World (Server x.Db)
  over = record w { connect = ok tt; client = served x wire; version_le = x.version_le }

  parse_versions-ok :
      (vs : List (Version × ℕ))
      → All (λ (v : Version × ℕ). w.version_parse (wire.version_text v.0) ≡ ok v.0) vs
      → parse_versions over (map (λ (v : Version × ℕ). wire.version_text v.0) vs)
        ≡ ok (map (λ (v : Version × ℕ). v.0) vs)
  unfolding parse_versions collect_map
  parse_versions-ok [] a = refl
  parse_versions-ok (v ∷ vs) a = rw (a.0, collect_map) (rw (parse_versions-ok vs a.1) refl)

  -- The versions of a schema that the client prints are those that the registry has, each as often,
  -- in ascending order, if the client reads the versions that the registry writes.
  pub get_schema_versions-printed :
      (o : IsVersionOrder x) (id : ℕ) (vs : List (Version × ℕ)) (t : Terminal (Server x.Db))
      → x.uuid_parse (w.uuid_text id) ≡ some id
      → Db.get_schema_versions x id t.registry.db ≡ (ok vs, t.registry.db)
      → All (λ (v : Version × ℕ). w.version_parse (wire.version_text v.0) ≡ ok v.0) vs
      → (printed : List Version) × (get_schema_versions over id t
          ≡ (ok tt, record t { stdout = t.stdout ++ map w.version_text printed }))
        × Perm printed (map (λ (v : Version × ℕ). v.0) vs)
        × IsAscending x.version_le printed
  unfolding get_schema_versions Rpc.parse_uuid Queries.get_schema_versions
  get_schema_versions-printed o id vs t parsed found read =
      let versions = map (λ (v : Version × ℕ). v.0) vs in
      let printed = sort x.version_le versions in
      (
        printed,
        rw (parsed, found, parse_versions-ok vs read)
            (println_all-stdout (map w.version_text printed) t),
        sort-Perm x.version_le versions,
        sort-IsAscending x o versions,
      )

  -- After a schema that exists was given a topic that exists, the client prints that topic for it.
  pub set_schema_topic-get_schema_topic :
      (g : IsPropertyGraph x) (cd : IsCodec x) (id : ℕ) (topic type : String)
      (t : Terminal (Server x.Db))
      → x.uuid_parse (w.uuid_text id) ≡ some id
      → g.vertex_type t.registry.db id ≡ some type
      → wire.topic_exists topic ≡ ok true
      → (t' : Terminal (Server x.Db)) × (set_schema_topic over id topic t ≡ (ok tt, t'))
        × (get_schema_topic over id t' ≡ (ok tt, record t' { stdout = t'.stdout ++ topic ∷ [] }))
  unfolding set_schema_topic get_schema_topic Rpc.parse_uuid Rpc.update_schema_metadata
      Rpc.check_topic Rpc.set_type Queries.get_schema_topic
  set_schema_topic-get_schema_topic g cd id topic type t parsed exists known =
      let (db', updated, wrote) =
        update_schema_property_found x g topic_name_prop id (string topic) t.registry.db type
          exists in
      let held : prop_of topic_name_prop (g.props db' id) ≡ some (string topic) =
        wrote.values id topic_name_prop ∙ rw (==_refl id) refl in
      let read : Db.get_schema_topic x id db' ≡ (ok topic, db') =
        get_schema_property_value x g x.string_from_value topic_name_prop id db'
        ∙ rw (held, cd.string_ok topic) refl in
      let event = ReplicationEvent.update_schema_metadata id none (some topic) none none in
      (
        record t {
          registry = record {
            db = db';
            replication = replicate_message event t.registry.replication;
          };
        },
        rw (parsed, known, updated) refl,
        rw (parsed, read) refl,
      )
