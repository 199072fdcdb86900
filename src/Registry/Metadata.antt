-- ===== src/Registry/Metadata.antt =====
-- The methods of crates/schema-registry/src/db.rs that read and replace one property of a schema.
use common_data_layer.Prelude.{
  ℕ, String, ◌≡◌, refl, Option, none, some, [], ◌∷◌, arith, str_eq, ◌==◌, ◌&&◌, if◌then◌else◌,
}
use common_data_layer.Json.{Value}
use common_data_layer.Exec.{Result, ok, err, ok_or}
use common_data_layer.Registry.Types.{
  RegistryError, no_schema_with_id, malformed_error, malformed_schema,
}
use common_data_layer.Registry.Externals.{Externals}
use common_data_layer.Registry.Laws.{IsPropertyGraph, prop_of}
use common_data_layer.Registry.Db.{
  connect, ensure_schema_exists, get_schema_property, set_vertex_properties, set_each,
}
use common_data_layer.Registry.Update.{update_schema_property}

-- What a reader makes of a stored property.
abbrev pub read_value :
    {T : Type 0} → (Value → Option T) → ℕ → Option Value → Result RegistryError T
read_value f id none = err (no_schema_with_id id)
read_value f id (some v) = ok_or (f v) (malformed_error (malformed_schema id))

module _ (x : Externals) (g : IsPropertyGraph x) where
  open x use {Db}
  open g use {vertex_type, props}

  pub connect_ok : (db : Db) → connect x db ≡ (ok tt, db)
  unfolding connect
  connect_ok db = rw (g.transaction_ok db) refl

  pub ensure_schema_exists_found :
      (id : ℕ) (db : Db) (t : String)
      → vertex_type db id ≡ some t
      → ensure_schema_exists x id db ≡ (ok tt, db)
  unfolding ensure_schema_exists
  ensure_schema_exists_found id db t e = rw (connect_ok db, g.get_vertices_ok id db, e) refl

  pub ensure_schema_exists_missing :
      (id : ℕ) (db : Db)
      → vertex_type db id ≡ none
      → ensure_schema_exists x id db ≡ (err (no_schema_with_id id), db)
  unfolding ensure_schema_exists
  ensure_schema_exists_missing id db e = rw (connect_ok db, g.get_vertices_ok id db, e) refl

  pub get_schema_property_value :
      {T : Type 0} (f : Value → Option T) (name : String) (id : ℕ) (db : Db)
      → get_schema_property x f name id db ≡ (read_value f id (prop_of name (props db id)), db)
  unfolding get_schema_property
  get_schema_property_value f name id db =
      rw (connect_ok db, g.get_vertex_properties_ok id name db) (ground arith)

  -- The contents after one property of an existing vertex was written.
  pub record Wrote (id : ℕ) (name : String) (value : Value) (db db' : Db) : Type 0 where
    pub types : (j : ℕ) → vertex_type db' j ≡ vertex_type db j
    pub values :
        (j : ℕ) (n : String)
        → prop_of n (props db' j)
          ≡ (if id == j && str_eq name n then some value else prop_of n (props db j))
    pub edges : (o : ℕ) (t n : String) → g.edge_values db' o t n ≡ g.edge_values db o t n

  pub set_vertex_properties_one :
      (id : ℕ) (name : String) (value : Value) (db : Db) (t : String)
      → vertex_type db id ≡ some t
      → (db' : Db) × (set_vertex_properties x id ((name, value) ∷ []) db ≡ (ok tt, db'))
        × Wrote id name value db db'
  unfolding set_vertex_properties set_each
  set_vertex_properties_one id name value db t e =
      let w = g.set_vertex_property_ok id name value db t e in
      (w.0, rw (connect_ok db, w.1) refl, record { types = w.2; values = w.3; edges = w.4 })

  pub update_schema_property_found :
      (name : String) (id : ℕ) (value : Value) (db : Db) (t : String)
      → vertex_type db id ≡ some t
      → (db' : Db) × (update_schema_property x name id value db ≡ (ok tt, db'))
        × Wrote id name value db db'
  unfolding update_schema_property
  update_schema_property_found name id value db t e =
      let w = set_vertex_properties_one id name value db t e in
      (w.0, rw (ensure_schema_exists_found id db t e, w.1) refl, w.2)

  -- On a missing schema the replacement fails and changes nothing.
  pub update_schema_property_missing :
      (name : String) (id : ℕ) (value : Value) (db : Db)
      → vertex_type db id ≡ none
      → update_schema_property x name id value db ≡ (err (no_schema_with_id id), db)
  unfolding update_schema_property
  update_schema_property_missing name id value db e = rw (ensure_schema_exists_missing id db e) refl
