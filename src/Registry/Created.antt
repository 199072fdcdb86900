-- ===== src/Registry/Created.antt =====
-- `create_vertex_with_properties` of crates/schema-registry/src/db.rs over a property graph.
use common_data_layer.Prelude.{
  ℕ, String, ◌≡◌, refl, ◌∙◌, Option, none, some, List, [], ◌∷◌, arith, str_eq, ◌==◌, ==_refl,
  if◌then◌else◌,
}
use common_data_layer.Json.{Value}
use common_data_layer.Exec.{ok, err}
use common_data_layer.Registry.Types.{duplicated_uuid}
use common_data_layer.Registry.Externals.{Externals}
use common_data_layer.Registry.Storage.{Vertex}
use common_data_layer.Registry.Laws.{IsPropertyGraph, prop_of}
use common_data_layer.Registry.Db.{set_each, new_vertex, create_vertex_with_properties}
use common_data_layer.Registry.Metadata.{connect_ok}

-- What a property holds after a list of writes.
abbrev pub written : String → List (String × Value) → Option Value → Option Value
written n [] o = o
written n ((name, v) ∷ ps) o = written n ps (if str_eq name n then some v else o)

module _ (x : Externals) (g : IsPropertyGraph x) where
  open x use {Db}
  open g use {vertex_type, props, edge_values}

  pub record WroteAll (id : ℕ) (ps : List (String × Value)) (db db' : Db) : Type 0 where
    pub types : (j : ℕ) → vertex_type db' j ≡ vertex_type db j
    pub values :
        (j : ℕ) (n : String)
        → prop_of n (props db' j)
          ≡ (if id == j then written n ps (prop_of n (props db j)) else prop_of n (props db j))
    pub edges : (o : ℕ) (t n : String) → edge_values db' o t n ≡ edge_values db o t n

  pub set_each_ok :
      (id : ℕ) (ps : List (String × Value)) (db : Db) (t : String)
      → vertex_type db id ≡ some t
      → (db' : Db) × (set_each x id ps db ≡ (ok tt, db')) × WroteAll id ps db db'
  unfolding set_each
  set_each_ok id [] db t e =
      (db, refl, record { types = λ j. refl; values = λ j n. ground arith; edges = λ o t' n. refl })
  set_each_ok id ((name, v) ∷ ps) db t e =
      let w = g.set_vertex_property_ok id name v db t e in
      let r = set_each_ok id ps w.0 t (w.2 id ∙ e) in
      (
        r.0,
        rw w.1 r.1,
        record {
          types = λ j. r.2.types j ∙ w.2 j;
          values = λ j n. r.2.values j n ∙ rw (w.3 j n) (ground arith);
          edges = λ o t' n. r.2.edges o t' n ∙ w.4 o t' n;
        },
      )

  -- The contents after a vertex was made at an id that was free.
  pub record Created (id : ℕ) (t : String) (ps : List (String × Value)) (db db' : Db) : Type 0 where
    pub was_free : vertex_type db id ≡ none
    pub types : (j : ℕ) → vertex_type db' j ≡ (if id == j then some t else vertex_type db j)
    pub values :
        (j : ℕ) (n : String)
        → prop_of n (props db' j) ≡ (if id == j then written n ps none else prop_of n (props db j))
    pub edges : (o : ℕ) (t' n : String) → edge_values db' o t' n ≡ edge_values db o t' n

  pub create_vertex_free :
      {V : Type 0} (trait : Vertex V) (v : V) (db : Db)
      → (id : ℕ) × (db' : Db) × (create_vertex_with_properties x trait v none db ≡ (ok id, db'))
        × Created id trait.db_type (trait.into_properties v) db db'
  unfolding create_vertex_with_properties new_vertex
  create_vertex_free trait v db =
      let n = g.create_vertex_from_type_ok trait.db_type db in
      let w =
        set_each_ok n.0 (trait.into_properties v) n.1 trait.db_type
          (n.4 n.0 ∙ rw (==_refl n.0) refl) in
      (
        n.0,
        w.0,
        rw (connect_ok x g db, n.2, w.1) refl,
        record {
          was_free = n.3;
          types = λ j. w.2.types j ∙ n.4 j;
          values = λ j m. w.2.values j m ∙ rw (n.5 j m) (ground arith);
          edges = λ o t' m. w.2.edges o t' m ∙ n.6 o t' m;
        },
      )

  pub create_vertex_at :
      {V : Type 0} (trait : Vertex V) (v : V) (id : ℕ) (db : Db)
      → vertex_type db id ≡ none
      → (db' : Db) × (create_vertex_with_properties x trait v (some id) db ≡ (ok id, db'))
        × Created id trait.db_type (trait.into_properties v) db db'
  unfolding create_vertex_with_properties new_vertex
  create_vertex_at trait v id db free =
      let n = g.create_vertex_new (record { id = id; t = trait.db_type }) db free in
      let w =
        set_each_ok id (trait.into_properties v) n.0 trait.db_type
          (n.2 id ∙ rw (==_refl id) refl) in
      (
        w.0,
        rw (connect_ok x g db, n.1, w.1) refl,
        record {
          was_free = free;
          types = λ j. w.2.types j ∙ n.2 j;
          values = λ j m. w.2.values j m ∙ rw (n.3 j m) (ground arith);
          edges = λ o t' m. w.2.edges o t' m ∙ n.4 o t' m;
        },
      )

  -- An id that is taken is refused, and the store keeps its contents.
  pub create_vertex_taken :
      {V : Type 0} (trait : Vertex V) (v : V) (id : ℕ) (db : Db) (t : String)
      → vertex_type db id ≡ some t
      → create_vertex_with_properties x trait v (some id) db ≡ (err (duplicated_uuid id), db)
  unfolding create_vertex_with_properties new_vertex
  create_vertex_taken trait v id db t e =
      rw (connect_ok x g db, g.create_vertex_taken (record { id = id; t = trait.db_type }) db t e)
        refl
