-- ===== src/Registry/Linked.antt =====
-- `set_edge_properties` and the reading of the versions of a schema, crates/schema-registry/src/db.rs,
-- over a property graph.
use common_data_layer.Prelude.{
  ℕ, String, ◌≡◌, refl, sym, ◌∙◌, ap, ◌≢◌, inl, inr, none, some, List, [], ◌∷◌, ◌++◌, All,
  Option-cases,
}
use common_data_layer.Exec.{Result, ok, err}
use common_data_layer.Registry.Types.{
  Version, RegistryError, SchemaDefinitionEdge, schema_definition_edge_type, edge_version_prop,
}
use common_data_layer.Registry.Externals.{Externals, EdgeProperty}
use common_data_layer.Registry.Storage.{schema_definition_edge}
use common_data_layer.Registry.Laws.{IsPropertyGraph}
use common_data_layer.Registry.Db.{
  parse_versions, get_schema_versions, set_edge_properties, set_each_edge,
}
use common_data_layer.Registry.Metadata.{connect_ok}

module _ (x : Externals) where
  open x use {version_from_value}

  parse_some :
      (id : ℕ) (p : EdgeProperty) (ps : List EdgeProperty) (u : Version)
      (r : Result RegistryError (List (Version × ℕ))) (vs : List (Version × ℕ))
      → version_from_value p.value ≡ some u
      → parse_versions x id ps ≡ r
      → parse_versions x id (p ∷ ps) ≡ ok vs
      → (ws : List (Version × ℕ)) × (parse_versions x id ps ≡ ok ws)
        × (vs ≡ (u, p.key.inbound_id) ∷ ws)
  unfolding parse_versions
  parse_some id p ps u (err e) vs a b h = absurd (cc (rw (a, b, parse_versions) at h))
  parse_some id p ps u (ok ws) vs a b h = (ws, b, cc (rw (a, b, parse_versions) at h))

  parse_none :
      (id : ℕ) (p : EdgeProperty) (ps : List EdgeProperty) (vs : List (Version × ℕ))
      → version_from_value p.value ≡ none
      → parse_versions x id (p ∷ ps) ≢ ok vs
  unfolding parse_versions
  parse_none id p ps vs a h = cc (rw (a, parse_versions) at h)

  -- One more edge among those that are read is one more version among the others.
  pub parse_versions-insert :
      (id : ℕ) (p : EdgeProperty) (v : Version) (before after : List EdgeProperty)
      (vs : List (Version × ℕ))
      → version_from_value p.value ≡ some v
      → parse_versions x id (before ++ after) ≡ ok vs
      → (older : List (Version × ℕ)) × (newer : List (Version × ℕ)) × (vs ≡ older ++ newer)
        × (parse_versions x id (before ++ p ∷ after) ≡ ok (older ++ (v, p.key.inbound_id) ∷ newer))
  unfolding parse_versions
  parse_versions-insert id p v [] after vs e h = ([], vs, refl, rw (e, h) refl)
  parse_versions-insert id p v (b ∷ before) after vs e h =
      elim (Option-cases (version_from_value b.value)) [
        | inl malformed ↦ absurd (parse_none id b (before ++ after) vs malformed h)
        | inr (u, read) ↦
            let r = parse_some id b (before ++ after) u _ vs read refl h in
            let s = parse_versions-insert id p v before after r.0 e r.1 in
            (
              (u, b.key.inbound_id) ∷ s.0,
              s.1,
              r.2 ∙ ap (λ ws. (u, b.key.inbound_id) ∷ ws) s.2,
              rw (read, s.3) refl,
            )
      ]

module _ (x : Externals) (g : IsPropertyGraph x) where
  open x use {Db, version_to_value}
  open g use {vertex_type, props, edge_values}

  pub get_schema_versions_read :
      (id : ℕ) (db : Db)
      → get_schema_versions x id db ≡ (
        parse_versions x id (edge_values db id schema_definition_edge_type edge_version_prop),
        db,
      )
  unfolding get_schema_versions
  get_schema_versions_read id db =
      rw
        (
          connect_ok x g db,
          g.get_edge_properties_ok id schema_definition_edge_type edge_version_prop db,
        )
        refl

  abbrev pub version_edge : SchemaDefinitionEdge → EdgeProperty
  version_edge e = record {
    key = record {
      outbound_id = e.schema_id;
      t = schema_definition_edge_type;
      inbound_id = e.definition_id;
    };
    value = version_to_value e.version;
  }

  -- An edge to a definition that has none adds its version at some place and changes no vertex.
  pub set_edge_properties_new :
      (e : SchemaDefinitionEdge) (db : Db) (s t : String)
      → vertex_type db e.schema_id ≡ some s
      → vertex_type db e.definition_id ≡ some t
      → All
          (λ (p : EdgeProperty). p.key.inbound_id ≢ e.definition_id)
          (edge_values db e.schema_id schema_definition_edge_type edge_version_prop)
      → (db' : Db) × (before : List EdgeProperty) × (after : List EdgeProperty)
        × (set_edge_properties x (schema_definition_edge x) e db ≡ (ok tt, db'))
        × ((j : ℕ) → vertex_type db' j ≡ vertex_type db j)
        × ((j : ℕ) → props db' j ≡ props db j)
        × (edge_values db e.schema_id schema_definition_edge_type edge_version_prop
            ≡ before ++ after)
        × (edge_values db' e.schema_id schema_definition_edge_type edge_version_prop
            ≡ before ++ version_edge e ∷ after)
  unfolding set_edge_properties set_each_edge
  set_edge_properties_new e db s t from to fresh =
      let key = (version_edge e).key in
      let c = g.create_edge_ok key db s t from to in
      let same = c.5 e.schema_id schema_definition_edge_type edge_version_prop in
      let w = c.6 edge_version_prop (version_to_value e.version) (rw same fresh) in
      (
        w.0,
        w.1,
        w.2,
        rw (connect_ok x g db, c.2, w.3) refl,
        λ j. w.4 j ∙ c.3 j,
        λ j. w.5 j ∙ c.4 j,
        sym same ∙ w.6,
        w.7,
      )
