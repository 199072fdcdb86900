-- ===== src/Registry/Db.antt =====
-- `SchemaDb` of crates/schema-registry/src/db.rs: the accesses to the store that the other methods
-- are built from, and the methods that read. Each method is an action on the store's contents.
use common_data_layer.Prelude.{
  ℕ, String, Bool, Option, none, some, List, [], ◌∷◌, str_eq, if◌then◌else◌, ◌==◌,
}
use common_data_layer.Json.{Value}
use common_data_layer.Exec.{
  Result, ok, err, map_err, ok_or, first, Exec, pure, raise, lift, ◌>>=◌, ◌>>◌,
}
use common_data_layer.Registry.Types.{
  Version, SchemaType, Schema, View, SchemaDefinition, VersionedUuid, RegistryError,
  no_schema_with_id, no_view_with_id, duplicated_uuid, db_error, connection_error, malformed_error,
  no_version_matches_requirement, malformed_schema, malformed_schema_version, malformed_view,
  schema_name_prop, topic_name_prop, query_address_prop, schema_type_prop, definition_value_prop,
  edge_version_prop, schema_vertex_type, view_vertex_type, schema_definition_edge_type,
  schema_view_edge_type,
}
use common_data_layer.Registry.Externals.{
  Externals, VertexProperties, VertexProperty, EdgeKey, EdgeProperty,
}
use common_data_layer.Registry.Storage.{Vertex, Edge, schema_vertex, view_vertex}

-- `props.filter(|props| props.vertex.t == db_type)`
abbrev pub of_type : String → Option VertexProperties → Option VertexProperties
of_type t none = none
of_type t (some vp) = if str_eq vp.vertex.t t then some vp else none

-- `map.insert(id, value)` of a `HashMap`, and `collect` into one.
abbrev pub put {ℓ} : {A : Type ℓ} → ℕ → A → List (ℕ × A) → List (ℕ × A)
put k v [] = (k, v) ∷ []
put k v ((j, w) ∷ m) = if j == k then (k, v) ∷ m else (j, w) ∷ put k v m

-- `into_iter().map(parse).collect::<Result<HashMap<_, _>>>()`: the first error ends it.
unfoldable pub collect :
    {P A : Type 0}
    → (P → Result RegistryError (ℕ × A))
    → List (ℕ × A)
    → List P
    → Result RegistryError (List (ℕ × A))
collect parse m [] = ok m
collect parse m (p ∷ ps) =
    let rest = λ (e : ℕ × _). collect parse (put e.0 e.1 m) ps in
    elim (parse p) [ ok e ↦ rest e | err e ↦ err e ]

abbrev pub max_by_version :
    (Version → Version → Bool) → Version × ℕ → List (Version × ℕ) → Version × ℕ
max_by_version le best [] = best
max_by_version le best (v ∷ vs) = max_by_version le (if le best.0 v.0 then v else best) vs

-- `max_by_key(|(version, _)| version.clone())`: the last of the greatest.
abbrev pub max_version? : (Version → Version → Bool) → List (Version × ℕ) → Option (Version × ℕ)
max_version? le [] = none
max_version? le (v ∷ vs) = some (max_by_version le v vs)

-- `filter(|(version, _)| version_req.matches(version))`
abbrev pub matching : (Version → Bool) → List (Version × ℕ) → List (Version × ℕ)
matching test [] = []
matching test (v ∷ vs) = let rest = matching test vs in if test v.0 then v ∷ rest else rest

module _ (x : Externals) where
  open x use {
    Db, transaction, create_vertex, create_vertex_from_type, set_vertex_property, create_edge,
    set_edge_property, get_vertices, get_all_vertex_properties, get_vertex_properties,
    get_edge_properties, get_neighbour_properties, get_range_properties, get_range_property,
    string_from_value, schema_type_from_value, version_from_value, version_le, matches,
  }

  abbrev pub Op : Type 0 → Type 0
  Op A = Exec Db RegistryError A

  -- `?` on an operation of indradb
  abbrev pub query : {A : Type 0} → (Db → Result String A) → Op A
  query f db = (map_err db_error (f db), db)

  abbrev pub update : {A : Type 0} → (Db → Result String A × Db) → Op A
  update f db = let (r, db') = f db in (map_err db_error r, db')

  unfoldable pub connect : Op (Unit {0})
  connect db = (map_err connection_error (transaction db), db)

  unfoldable pub new_vertex : String → Option ℕ → Op ℕ
  new_vertex t (some uuid) = do
    inserted ← update (create_vertex (record { id = uuid; t = t }))
    if inserted then pure uuid else raise (duplicated_uuid uuid)
  new_vertex t none = update (create_vertex_from_type t)

  -- The loop over the properties of a vertex.
  unfoldable pub set_each : ℕ → List (String × Value) → Op (Unit {0})
  set_each id [] = pure tt
  set_each id ((name, value) ∷ rest) = do
    update (set_vertex_property id name value)
    set_each id rest

  unfoldable pub create_vertex_with_properties : {V : Type 0} → Vertex V → V → Option ℕ → Op ℕ
  create_vertex_with_properties trait vertex uuid = do
    connect
    let properties = trait.into_properties vertex
    new_id ← new_vertex trait.db_type uuid
    set_each new_id properties
    pure new_id

  unfoldable pub set_vertex_properties : ℕ → List (String × Value) → Op (Unit {0})
  set_vertex_properties id properties = do connect; set_each id properties

  -- The loop over the properties of an edge.
  unfoldable pub set_each_edge : EdgeKey → List (String × Value) → Op (Unit {0})
  set_each_edge key [] = pure tt
  set_each_edge key ((name, value) ∷ rest) = do
    update (set_edge_property key name value)
    set_each_edge key rest

  unfoldable pub set_edge_properties : {E : Type 0} → Edge E → E → Op (Unit {0})
  set_edge_properties trait edge = do
    connect
    let info = trait.edge_info edge
    update (create_edge info.0)
    set_each_edge info.0 info.1

  unfoldable pub ensure_schema_exists : ℕ → Op (Unit {0})
  ensure_schema_exists id = do
    connect
    vertices ← query (get_vertices id)
    elim vertices [ [] ↦ raise (no_schema_with_id id) | v ∷ vs ↦ pure tt ]

  unfoldable pub schema_of_vertex : VertexProperties → Result RegistryError (ℕ × Schema)
  schema_of_vertex props =
      ok_or ((schema_vertex x).from_properties props)
        (malformed_error (malformed_schema props.vertex.id))

  unfoldable pub view_of_vertex : VertexProperties → Result RegistryError (ℕ × View)
  view_of_vertex props =
      ok_or ((view_vertex x).from_properties props)
        (malformed_error (malformed_view props.vertex.id))

  unfoldable pub get_schema : ℕ → Op Schema
  get_schema id = do
    connect
    found ← query (get_all_vertex_properties id)
    props ← lift (ok_or (first found) (no_schema_with_id id))
    schema ← lift (schema_of_vertex props)
    pure schema.1

  -- The parsed versions of the edges, or the first that is malformed.
  unfoldable pub parse_versions : ℕ → List EdgeProperty → Result RegistryError (List (Version × ℕ))
  parse_versions id [] = ok []
  parse_versions id (p ∷ ps) = elim (version_from_value p.value) [
    | none ↦ err (malformed_error (malformed_schema_version id))
    | some v ↦ elim (parse_versions id ps) [
      | err e ↦ err e
      | ok vs ↦ ok ((v, p.key.inbound_id) ∷ vs)
    ]
  ]

  unfoldable pub get_schema_versions : ℕ → Op (List (Version × ℕ))
  get_schema_versions id = do
    connect
    props ← query (get_edge_properties id schema_definition_edge_type edge_version_prop)
    lift (parse_versions id props)

  unfoldable pub get_latest_valid_schema_version : VersionedUuid → Op (Version × ℕ)
  get_latest_valid_schema_version id = do
    versions ← get_schema_versions id.id
    lift (
        ok_or (max_version? version_le (matching (matches id.version_req) versions))
          (no_version_matches_requirement id))

  unfoldable pub get_schema_definition : VersionedUuid → Op SchemaDefinition
  get_schema_definition id = do
    connect
    latest ← get_latest_valid_schema_version id
    found ← query (get_vertex_properties latest.1 definition_value_prop)
    prop ← lift (ok_or (first found) (no_version_matches_requirement id))
    pure (record { version = latest.0; definition = prop.value })

  -- The three methods that read one property of a schema.
  unfoldable pub get_schema_property : {T : Type 0} → (Value → Option T) → String → ℕ → Op T
  get_schema_property from_value name id = do
    connect
    found ← query (get_vertex_properties id name)
    prop ← lift (ok_or (first found) (no_schema_with_id id))
    lift (ok_or (from_value prop.value) (malformed_error (malformed_schema id)))

  abbrev pub get_schema_topic : ℕ → Op String
  get_schema_topic = get_schema_property string_from_value topic_name_prop

  abbrev pub get_schema_query_address : ℕ → Op String
  get_schema_query_address = get_schema_property string_from_value query_address_prop

  abbrev pub get_schema_type : ℕ → Op SchemaType
  get_schema_type = get_schema_property schema_type_from_value schema_type_prop

  unfoldable pub get_view : ℕ → Op View
  get_view id = do
    connect
    found ← query (get_all_vertex_properties id)
    props ← lift (ok_or (of_type view_vertex_type (first found)) (no_view_with_id id))
    view ←
        lift (ok_or ((view_vertex x).from_properties props) (malformed_error (malformed_view id)))
    pure view.1

  unfoldable pub get_all_schemas : Op (List (ℕ × Schema))
  get_all_schemas = do
    connect
    all_schemas ← query (get_range_properties schema_vertex_type)
    lift (collect schema_of_vertex [] all_schemas)

  unfoldable pub name_of_vertex : VertexProperty → Result RegistryError (ℕ × String)
  name_of_vertex prop = elim (string_from_value prop.value) [
    | none ↦ err (malformed_error (malformed_schema prop.id))
    | some name ↦ ok (prop.id, name)
  ]

  unfoldable pub get_all_schema_names : Op (List (ℕ × String))
  get_all_schema_names = do
    connect
    all_names ← query (get_range_property schema_vertex_type schema_name_prop)
    lift (collect name_of_vertex [] all_names)

  unfoldable pub get_all_views_of_schema : ℕ → Op (List (ℕ × View))
  get_all_views_of_schema schema_id = do
    connect
    ensure_schema_exists schema_id
    all_views ← query (get_neighbour_properties schema_id schema_view_edge_type)
    lift (collect view_of_vertex [] all_views)
