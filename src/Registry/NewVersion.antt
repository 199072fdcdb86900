-- ===== src/Registry/NewVersion.antt =====
-- `add_new_version_of_schema` of crates/schema-registry/src/db.rs on a version above all the others.
use mathlib.Core.Path.{ap}
use common_data_layer.Prelude.{
  String, ◌∙◌, ==_refl, ==_iff, Bool-cases, none, ◌==◌, ℕ, ◌≡◌, refl, sym, inl, inr, false, some,
  List, ◌∷◌, ◌++◌, All,
}
use common_data_layer.Json.{Value}
use common_data_layer.Exec.{ok}
use common_data_layer.Registry.Types.{
  Version, Definition, NewSchemaVersion, SchemaDefinitionEdge, schema_definition_edge_type,
  definition_vertex_type, definition_value_prop, edge_version_prop,
}
use common_data_layer.Registry.Externals.{Externals}
use common_data_layer.Registry.Storage.{definition_vertex, schema_definition_edge}
use common_data_layer.Registry.Laws.{IsPropertyGraph, IsCodec, IsVersionOrder, prop_of}
use common_data_layer.Registry.Db.{
  create_vertex_with_properties, set_edge_properties, get_schema_versions, get_schema_definition,
  get_latest_valid_schema_version, parse_versions,
}
use common_data_layer.Registry.Update.{build_full_schema, add_new_version_of_schema}
use common_data_layer.Registry.Metadata.{connect_ok, ensure_schema_exists_found}
use common_data_layer.Registry.Created.{create_vertex_free}
use common_data_layer.Registry.Linked.{
  parse_versions-insert, get_schema_versions_read, set_edge_properties_new, version_edge,
}
use common_data_layer.Registry.Greatest.{
  Strictly, max_inserted, must_be_greatest_passes, matching_all,
}

module _ (x : Externals) (g : IsPropertyGraph x) (c : IsCodec x) (o : IsVersionOrder x) where
  open x use {version_le}
  open g use {vertex_type, props, edge_values}

  -- A schema whose definition was just put into the store at the greatest version has it for its
  -- latest definition.
  get_schema_definition_greatest :
      (id d : ℕ) (v : Version) (definition : Value) (older newer : List (Version × ℕ)) (db : x.Db)
      → get_schema_versions x id db ≡ (ok (older ++ (v, d) ∷ newer), db)
      → All (Strictly version_le v) (older ++ newer)
      → prop_of definition_value_prop (props db d) ≡ some definition
      → get_schema_definition x (record { id = id; version_req = x.any_version }) db
        ≡ (ok (record { version = v; definition = definition }), db)
  unfolding get_schema_definition get_latest_valid_schema_version
  get_schema_definition_greatest id d v definition older newer db versions strict stored =
      rw
        (
          connect_ok x g db,
          versions,
          matching_all (x.matches x.any_version) (older ++ (v, d) ∷ newer) o.matches_any,
          max_inserted x o (v, d) older newer strict,
          g.get_vertex_properties_ok d definition_value_prop db,
          stored,
        )
        refl

  fresh_id :
      (d id : ℕ) (t : String) (db : x.Db)
      → vertex_type db d ≡ none
      → vertex_type db id ≡ some t
      → (d == id) ≡ false
  fresh_id d id t db free taken = elim (Bool-cases (d == id)) [
    | inl same ↦ absurd (cc (free, taken, (==_iff d id).0 same))
    | inr other ↦ other
  ]

  -- A definition that is put into the store for an existing schema, above its other versions.
  pub record NewDefinition (id : ℕ) (version : Version) (full : Definition) (db : x.Db)
      : Type 0 where
    pub definition_id : ℕ
    pub made : x.Db
    pub linked : x.Db
    pub make :
        create_vertex_with_properties x (definition_vertex x) full none db
        ≡ (ok definition_id, made)
    pub link :
        set_edge_properties x
          (schema_definition_edge x)
          (record { schema_id = id; definition_id = definition_id; version = version })
          made
        ≡ (ok tt, linked)
    pub latest :
        get_schema_definition x (record { id = id; version_req = x.any_version }) linked
        ≡ (ok (record { version = version; definition = full.definition }), linked)
    pub same_type : vertex_type linked id ≡ vertex_type db id
    pub same_props : (n : String) → prop_of n (props linked id) ≡ prop_of n (props db id)

  pub new_definition :
      (id : ℕ) (version : Version) (full : Definition) (vs : List (Version × ℕ)) (t : String)
      (db : x.Db)
      → vertex_type db id ≡ some t
      → get_schema_versions x id db ≡ (ok vs, db)
      → All (Strictly version_le version) vs
      → NewDefinition id version full db
  new_definition id version full vs t db exists versions strict =
      let v = create_vertex_free x g (definition_vertex x) full db in
      let edge : SchemaDefinitionEdge = record {
        schema_id = id;
        definition_id = v.0;
        version = version;
      } in
      let ids = v.3.types in
      let other : (v.0 == id) ≡ false = fresh_id v.0 id t db v.3.was_free exists in
      let same = v.3.edges id schema_definition_edge_type edge_version_prop in
      let fresh =
        g.edges_end db id schema_definition_edge_type edge_version_prop v.0 v.3.was_free in
      let e =
        set_edge_properties_new x g edge v.1 t definition_vertex_type (ids id ∙ rw other exists)
          (ids v.0 ∙ rw (==_refl v.0) refl) (rw same fresh) in
      let parsed : parse_versions x id (e.1 ++ e.2) ≡ ok vs =
        ap (parse_versions x id) (sym e.6 ∙ same)
        ∙ ap (λ r. r.0) (sym (get_schema_versions_read x g id db) ∙ versions) in
      let p =
        parse_versions-insert x id (version_edge x g edge) version e.1 e.2 vs (c.version_ok version)
          parsed in
      record {
        definition_id = v.0;
        made = v.1;
        linked = e.0;
        make = v.2;
        link = e.3;
        latest =
            get_schema_definition_greatest id v.0 version full.definition p.0 p.1 e.0
              (get_schema_versions_read x g id e.0 ∙ rw (e.7, p.3) refl) (rw p.2 at strict)
              (ap (prop_of definition_value_prop) (e.5 v.0)
                ∙ v.3.values v.0 definition_value_prop
                ∙ rw (==_refl v.0) refl);
        same_type = e.4 id ∙ ids id ∙ rw other refl;
        same_props = λ n. ap (prop_of n) (e.5 id) ∙ v.3.values id n ∙ rw other refl;
      }

  -- If the schema exists, its versions can be read and are all strictly below the new version, and the
  -- new definition is accepted, then the addition of the version succeeds, and the latest definition
  -- of the schema is then the new one, with its references resolved, at the new version.
  pub add_new_version_of_schema-latest :
      (id : ℕ) (new : NewSchemaVersion) (full : Definition) (vs : List (Version × ℕ)) (t : String)
      (db : x.Db)
      → vertex_type db id ≡ some t
      → get_schema_versions x id db ≡ (ok vs, db)
      → All (Strictly version_le new.version) vs
      → build_full_schema x new.definition db ≡ (ok full, db)
      → (db' : x.Db) × (add_new_version_of_schema x id new db ≡ (ok tt, db'))
        × (get_schema_definition x (record { id = id; version_req = x.any_version }) db'
            ≡ (ok (record { version = new.version; definition = full.definition }), db'))
  unfolding add_new_version_of_schema
  add_new_version_of_schema-latest id new full vs t db exists versions strict built =
      let d = new_definition id new.version full vs t db exists versions strict in
      (
        d.linked,
        rw
            (
              ensure_schema_exists_found x g id db t exists,
              versions,
              must_be_greatest_passes x o id new.version vs strict,
              built,
              d.make,
              d.link,
            )
            refl,
        d.latest,
      )
