-- ===== src/Registry/Laws.antt =====
-- What the registry relies on in the libraries that it calls (`Externals`): indradb is a property
-- graph whose operations succeed, serde_json reads back what it wrote, and versions are in a total
-- order. The order in which the store lists edges is left open.
use common_data_layer.Prelude.{
  ℕ, String, ◌≡◌, ◌≢◌, Bool, true, false, ◌&&◌, ◌⊎◌, Option, none, some, List, [], ◌∷◌, ◌++◌, ◌==◌,
  str_eq, if◌then◌else◌, All,
}
use common_data_layer.Json.{Value, string}
use common_data_layer.Exec.{ok, first}
use common_data_layer.Registry.Types.{Version, to_string, SchemaType}
use common_data_layer.Registry.Externals.{
  Externals, IndraVertex, NamedProperty, VertexProperties, VertexProperty, EdgeKey, EdgeProperty,
}
use common_data_layer.Registry.Storage.{drained}

-- The value of the property of that name.
abbrev pub prop_of : String → List NamedProperty → Option Value
prop_of name props = first (drained name props)

abbrev pub vertex_list : ℕ → Option String → List IndraVertex
vertex_list id none = []
vertex_list id (some t) = record { id = id; t = t } ∷ []

abbrev pub properties_list : ℕ → Option String → List NamedProperty → List VertexProperties
properties_list id none props = []
properties_list id (some t) props =
    record { vertex = record { id = id; t = t }; props = props } ∷ []

abbrev pub property_list : ℕ → Option Value → List VertexProperty
property_list id none = []
property_list id (some v) = record { id = id; value = v } ∷ []

module _ (x : Externals) where
  open x use {
    Db, transaction, create_vertex, create_vertex_from_type, set_vertex_property, create_edge,
    set_edge_property, get_vertices, get_all_vertex_properties, get_vertex_properties,
    get_edge_properties, string_from_value, schema_type_from_value, version_from_value,
    version_to_value, version_le, any_version, matches,
  }

  pub record IsPropertyGraph : Type 0 where
    -- What a vertex and its properties are in the store.
    pub vertex_type : Db → ℕ → Option String
    pub props : Db → ℕ → List NamedProperty
    -- The values of one property of the edges of one type that leave a vertex.
    pub edge_values : Db → ℕ → String → String → List EdgeProperty
    pub transaction_ok : (db : Db) → transaction db ≡ ok tt
    pub get_vertices_ok :
        (id : ℕ) (db : Db) → get_vertices id db ≡ ok (vertex_list id (vertex_type db id))
    pub get_all_vertex_properties_ok :
        (id : ℕ) (db : Db)
        → get_all_vertex_properties id db
          ≡ ok (properties_list id (vertex_type db id) (props db id))
    pub get_vertex_properties_ok :
        (id : ℕ) (name : String) (db : Db)
        → get_vertex_properties id name db ≡ ok (property_list id (prop_of name (props db id)))
    pub get_edge_properties_ok :
        (id : ℕ) (t name : String) (db : Db)
        → get_edge_properties id t name db ≡ ok (edge_values db id t name)
    -- A taken id is refused, and a new vertex has no properties.
    pub create_vertex_taken :
        (v : IndraVertex) (db : Db) (t : String)
        → vertex_type db v.id ≡ some t
        → create_vertex v db ≡ (ok false, db)
    pub create_vertex_new :
        (v : IndraVertex) (db : Db)
        → vertex_type db v.id ≡ none
        → (db' : Db) × (create_vertex v db ≡ (ok true, db'))
          × ((j : ℕ) → vertex_type db' j ≡ (if v.id == j then some v.t else vertex_type db j))
          × ((j : ℕ) (name : String)
              → prop_of name (props db' j)
                ≡ (if v.id == j then none else prop_of name (props db j)))
          × ((o : ℕ) (t name : String) → edge_values db' o t name ≡ edge_values db o t name)
    -- The store picks an id that is free.
    pub create_vertex_from_type_ok :
        (t : String) (db : Db)
        → (id : ℕ) × (db' : Db) × (create_vertex_from_type t db ≡ (ok id, db'))
          × (vertex_type db id ≡ none)
          × ((j : ℕ) → vertex_type db' j ≡ (if id == j then some t else vertex_type db j))
          × ((j : ℕ) (name : String)
              → prop_of name (props db' j) ≡ (if id == j then none else prop_of name (props db j)))
          × ((o : ℕ) (t' name : String) → edge_values db' o t' name ≡ edge_values db o t' name)
    pub set_vertex_property_ok :
        (id : ℕ) (name : String) (value : Value) (db : Db) (t : String)
        → vertex_type db id ≡ some t
        → (db' : Db) × (set_vertex_property id name value db ≡ (ok tt, db'))
          × ((j : ℕ) → vertex_type db' j ≡ vertex_type db j)
          × ((j : ℕ) (n : String)
              → prop_of n (props db' j)
                ≡ (if id == j && str_eq name n then some value else prop_of n (props db j)))
          × ((o : ℕ) (t' n : String) → edge_values db' o t' n ≡ edge_values db o t' n)
    -- An edge between two vertices; its value is then one more in the list, at some place.
    pub create_edge_ok :
        (key : EdgeKey) (db : Db) (s t : String)
        → vertex_type db key.outbound_id ≡ some s
        → vertex_type db key.inbound_id ≡ some t
        → (db' : Db) × (created : Bool) × (create_edge key db ≡ (ok created, db'))
          × ((j : ℕ) → vertex_type db' j ≡ vertex_type db j)
          × ((j : ℕ) → props db' j ≡ props db j)
          × ((o : ℕ) (t' n : String) → edge_values db' o t' n ≡ edge_values db o t' n)
          × ((name : String) (value : Value)
              → All
                  (λ (p : EdgeProperty). p.key.inbound_id ≢ key.inbound_id)
                  (edge_values db' key.outbound_id key.t name)
              → (db'' : Db) × (before : List EdgeProperty) × (after : List EdgeProperty)
                × (set_edge_property key name value db' ≡ (ok tt, db''))
                × ((j : ℕ) → vertex_type db'' j ≡ vertex_type db' j)
                × ((j : ℕ) → props db'' j ≡ props db' j)
                × (edge_values db' key.outbound_id key.t name ≡ before ++ after)
                × (edge_values db'' key.outbound_id key.t name
                    ≡ before ++ record { key = key; value = value } ∷ after))
    -- An edge leads to a vertex.
    pub edges_end :
        (db : Db) (o : ℕ) (t name : String) (free : ℕ)
        → vertex_type db free ≡ none
        → All (λ (p : EdgeProperty). p.key.inbound_id ≢ free) (edge_values db o t name)

  -- serde_json reads back what it wrote.
  pub record IsCodec : Type 0 where
    pub string_ok : (s : String) → string_from_value (string s) ≡ some s
    pub schema_type_ok : (t : SchemaType) → schema_type_from_value (string (to_string t)) ≡ some t
    pub version_ok : (v : Version) → version_from_value (version_to_value v) ≡ some v

  -- The order of semver is total, and `VersionReq::any()` matches every version.
  pub record IsVersionOrder : Type 0 where
    pub le_refl : (v : Version) → version_le v v ≡ true
    pub le_trans :
        (u v w : Version) → version_le u v ≡ true → version_le v w ≡ true → version_le u w ≡ true
    pub le_total : (u v : Version) → (version_le u v ≡ true) ⊎ (version_le v u ≡ true)
    pub matches_any : (v : Version) → matches any_version v ≡ true
