-- ===== src/Registry/NewSchema.antt =====
-- `add_schema` of crates/schema-registry/src/db.rs, and what the readers then find.
use common_data_layer.Prelude.{ℕ, String, ◌≡◌, refl, sym, ◌∙◌, ap, Option, none, some, [], ==_refl}
use common_data_layer.Exec.{ok}
use common_data_layer.Registry.Types.{
  Version, Schema, Definition, NewSchema, schema_of, schema_name_prop, topic_name_prop,
  query_address_prop, schema_type_prop, schema_definition_edge_type, edge_version_prop,
  schema_vertex_type,
}
use common_data_layer.Registry.Externals.{Externals}
use common_data_layer.Registry.Storage.{schema_vertex}
use common_data_layer.Registry.Stored.{schema_from_properties_stored}
use common_data_layer.Registry.Laws.{IsPropertyGraph, IsCodec, IsVersionOrder, prop_of}
use common_data_layer.Registry.Db.{
  create_vertex_with_properties, get_schema_versions, get_schema_definition, get_schema,
  schema_of_vertex,
}
use common_data_layer.Registry.Update.{build_full_schema, add_schema}
use common_data_layer.Registry.Metadata.{connect_ok}
use common_data_layer.Registry.Created.{Created, create_vertex_at, create_vertex_free, written}
use common_data_layer.Registry.Linked.{get_schema_versions_read}
use common_data_layer.Registry.NewVersion.{new_definition}

abbrev first_version : Version
first_version = record { major = 1; minor = 0; patch = 0; pre = []; build = [] }

module _ (x : Externals) (g : IsPropertyGraph x) (c : IsCodec x) (o : IsVersionOrder x) where
  open g use {vertex_type, props}

  -- What an added schema leaves in the store, if its vertex was made at `id`.
  added_at :
      (asked : Option ℕ) (id : ℕ) (new : NewSchema) (full : Definition) (db made : x.Db)
      → create_vertex_with_properties x (schema_vertex x) (schema_of new).0 asked db ≡ (ok id, made)
      → Created x g id schema_vertex_type
          ((schema_vertex x).into_properties (schema_of new).0)
          db
          made
      → get_schema_versions x id db ≡ (ok [], db)
      → build_full_schema x (schema_of new).1 db ≡ (ok full, db)
      → (db' : x.Db) × (add_schema x new asked db ≡ (ok id, db'))
        × (get_schema x id db' ≡ (ok (schema_of new).0, db'))
        × (get_schema_definition x (record { id = id; version_req = x.any_version }) db'
            ≡ (ok (record { version = first_version; definition = full.definition }), db'))
  unfolding add_schema get_schema schema_of_vertex
  added_at asked id new full db made make v versions built =
      let schema : Schema = (schema_of new).0 in
      let exists : vertex_type made id ≡ some schema_vertex_type =
        v.types id ∙ rw (==_refl id) refl in
      let none_yet : get_schema_versions x id made ≡ (ok [], made) =
        get_schema_versions_read x g id made
        ∙ rw
            (
              v.edges id schema_definition_edge_type edge_version_prop,
              ap (λ r. r.0) (sym (get_schema_versions_read x g id db) ∙ versions),
            )
            refl in
      let d =
        new_definition x g c o id first_version full [] schema_vertex_type made exists none_yet
          tt in
      let read : (n : String)
          → prop_of n (props d.linked id)
            ≡ written n ((schema_vertex x).into_properties schema) none =
        λ n. d.same_props n ∙ v.values id n ∙ rw (==_refl id) refl in
      let stored =
        schema_from_properties_stored x c
          (record {
            vertex = record { id = id; t = schema_vertex_type };
            props = props d.linked id;
          })
          schema (read schema_name_prop) (read topic_name_prop) (read query_address_prop)
          (read schema_type_prop) in
      (
        d.linked,
        rw (built, make, d.make, d.link) refl,
        rw
            (
              connect_ok x g d.linked,
              g.get_all_vertex_properties_ok id d.linked,
              d.same_type,
              exists,
              stored,
            )
            refl,
        d.latest,
      )

  -- A schema that is added at an id that is free and has no versions, with a definition that is
  -- accepted, gets that id. Its name, topic, address and type can then be read back, and its latest
  -- definition is the accepted one, with its references resolved, at version 1.0.0.
  pub add_schema-get_schema :
      (id : ℕ) (new : NewSchema) (full : Definition) (db : x.Db)
      → vertex_type db id ≡ none
      → get_schema_versions x id db ≡ (ok [], db)
      → build_full_schema x (schema_of new).1 db ≡ (ok full, db)
      → (db' : x.Db) × (add_schema x new (some id) db ≡ (ok id, db'))
        × (get_schema x id db' ≡ (ok (schema_of new).0, db'))
        × (get_schema_definition x (record { id = id; version_req = x.any_version }) db'
            ≡ (ok (record { version = first_version; definition = full.definition }), db'))
  add_schema-get_schema id new full db free versions built =
      let v = create_vertex_at x g (schema_vertex x) (schema_of new).0 id db free in
      added_at (some id) id new full db v.0 v.1 v.2 versions built

  -- The same with an id that the store chooses, if none of the free ids has versions.
  pub add_schema-chosen :
      (new : NewSchema) (full : Definition) (db : x.Db)
      → ((id : ℕ) → vertex_type db id ≡ none → get_schema_versions x id db ≡ (ok [], db))
      → build_full_schema x (schema_of new).1 db ≡ (ok full, db)
      → (id : ℕ) × (db' : x.Db) × (add_schema x new none db ≡ (ok id, db'))
        × (get_schema x id db' ≡ (ok (schema_of new).0, db'))
        × (get_schema_definition x (record { id = id; version_req = x.any_version }) db'
            ≡ (ok (record { version = first_version; definition = full.definition }), db'))
  add_schema-chosen new full db versions built =
      let v = create_vertex_free x g (schema_vertex x) (schema_of new).0 db in
      let a = added_at none v.0 new full db v.1 v.2 v.3 (versions v.0 v.3.was_free) built in
      (v.0, a.0, a.1, a.2, a.3)
