-- ===== src/Registry/Memory/Graph.antt =====
-- The store in memory is a property graph.
use text.Mathlib.TextPositions.{eq_refl}
use common_data_layer.Prelude.{
  ap, ℕ, String, ◌≡◌, refl, ◌≢◌, true, false, ◌&&◌, Option, none, some, List, [], ◌∷◌, arith,
  str_eq, ◌==◌, ==_refl, if◌then◌else◌, All, Bool-cases, inl, inr,
}
use common_data_layer.Json.{Value}
use common_data_layer.Exec.{ok}
use common_data_layer.Registry.Externals.{IndraVertex, EdgeKey, EdgeProperty}
use common_data_layer.Registry.Laws.{prop_of, IsPropertyGraph}
use common_data_layer.Registry.Stored.{prop_of-replace}
use common_data_layer.Registry.Memory.Store.{
  Memory, EdgeEntry, IsVertex, add, create_vertex, create_vertex_from_type, set_vertex_property,
  create_edge, set_edge_property, edge_values, values_in, set_edge_at, with_property, with_link,
}
use common_data_layer.Registry.Memory.Instance.{memory}

added_props :
    (v : IndraVertex) (m : Memory) (j : ℕ) (n : String)
    → prop_of n ((add v m).props j) ≡ (if v.id == j then none else prop_of n (m.props j))
unfolding add
added_props v m j n = elim (Bool-cases (v.id == j)) [ inl e ↦ rw e refl | inr e ↦ rw e refl ]

set_props :
    (id : ℕ) (name : String) (value : Value) (m : Memory) (t : String)
    → m.kind id ≡ some t
    → (m' : Memory) × (set_vertex_property id name value m ≡ (ok tt, m'))
      × ((j : ℕ) → m'.kind j ≡ m.kind j)
      × ((j : ℕ) (n : String)
          → prop_of n (m'.props j)
            ≡ (if id == j && str_eq name n then some value else prop_of n (m.props j)))
      × ((o : ℕ) (t' n : String) → edge_values m' o t' n ≡ edge_values m o t' n)
unfolding set_vertex_property with_property
set_props id name value m t e = (
  with_property id name value m,
  rw (e, set_vertex_property) refl,
  λ j. refl,
  λ j n. elim (Bool-cases (id == j)) [
    | inl h ↦ rw h (prop_of-replace n name value (m.props j))
    | inr h ↦ rw h refl
  ],
  λ o t' n. refl,
)

-- An entry that was written is the first of its list.
set_edge_at_found :
    (key : EdgeKey) (name : String) (value : Value) (m : Memory) (k : Option String)
    (e : m.kind key.inbound_id ≡ k) (t : String)
    → k ≡ some t
    → let m' = set_edge_at key name value m k e in
      ((j : ℕ) → m'.kind j ≡ m.kind j)
      × ((j : ℕ) → m'.props j ≡ m.props j)
      × (edge_values m' key.outbound_id key.t name
          ≡ record { key = key; value = value } ∷ edge_values m key.outbound_id key.t name)
unfolding set_edge_at
set_edge_at_found key name value m none e t f = cc
set_edge_at_found key name value m (some u) e t f =
    (λ j. refl, λ j. refl, rw (==_refl key.outbound_id, eq_refl key.t, eq_refl name) refl)

created_edge :
    (key : EdgeKey) (m : Memory) (s t : String)
    → m.kind key.outbound_id ≡ some s
    → m.kind key.inbound_id ≡ some t
    → create_edge key m ≡ (ok true, with_link key m)
unfolding create_edge
created_edge key m s t e f = rw (e, create_edge) (rw (f, create_edge) refl)

not_taken :
    (m : Memory) (o : ℕ) (t name : String) (free : ℕ) (es : List EdgeEntry)
    → m.kind free ≡ none
    → All (λ (e : EdgeEntry). IsVertex m.kind e.key.inbound_id) es
    → All (λ (p : EdgeProperty). p.key.inbound_id ≢ free) (values_in o t name es)
not_taken m o t name free [] h a = tt
not_taken m o t name free (e ∷ es) h a =
    elim (Bool-cases (e.key.outbound_id == o && str_eq e.key.t t && str_eq e.name name)) [
      | inl hit ↦
          rw hit ((λ same. cc (a.0.1, h, ap m.kind same)), not_taken m o t name free es h a.1)
      | inr miss ↦ rw miss (not_taken m o t name free es h a.1)
    ]

taken :
    (v : IndraVertex) (m : Memory) (t : String)
    → m.kind v.id ≡ some t
    → create_vertex v m ≡ (ok false, m)
unfolding create_vertex
taken v m t e = rw (e, create_vertex) refl

added : (v : IndraVertex) (m : Memory) → m.kind v.id ≡ none → create_vertex v m ≡ (ok true, add v m)
unfolding create_vertex
added v m e = rw (e, create_vertex) refl

pub memory_graph : IsPropertyGraph memory
unfolding create_vertex_from_type set_edge_property with_link
memory_graph = record {
  vertex_type = λ m. m.kind;
  props = λ m. m.props;
  edge_values = edge_values;
  transaction_ok = λ m. refl;
  get_vertices_ok = λ id m. refl;
  get_all_vertex_properties_ok = λ id m. refl;
  get_vertex_properties_ok = λ id name m. refl;
  get_edge_properties_ok = λ id t name m. refl;
  create_vertex_taken = taken;
  create_vertex_new = λ v m e. (
    add v m,
    added v m e,
    (λ j. unfold add in refl),
    added_props v m,
    (λ o t name. unfold add in refl),
  );
  create_vertex_from_type_ok = λ t m. (
    m.next,
    add (record { id = m.next; t = t }) m,
    refl,
    m.fresh m.next (omega arith),
    (λ j. unfold add in refl),
    added_props (record { id = m.next; t = t }) m,
    (λ o t' name. unfold add in refl),
  );
  set_vertex_property_ok = set_props;
  create_edge_ok = λ key m s t e f. (
    with_link key m,
    true,
    created_edge key m s t e f,
    (λ j. refl),
    (λ j. refl),
    (λ o t' n. refl),
    (λ name value none_there.
        let put =
          set_edge_at_found key name value (with_link key m) (m.kind key.inbound_id) refl t f in
        (
          set_edge_at key name value (with_link key m) (m.kind key.inbound_id) refl,
          [],
          edge_values m key.outbound_id key.t name,
          refl,
          put.0,
          put.1,
          refl,
          put.2,
        )),
  );
  edges_end = λ m o t name free h. not_taken m o t name free m.entries h m.ended;
}

pub memory_graph-vertex_type : (m : Memory) (id : ℕ) → memory_graph.vertex_type m id ≡ m.kind id
unfolding memory_graph
memory_graph-vertex_type m id = refl

pub memory_graph-props : (m : Memory) (id : ℕ) → memory_graph.props m id ≡ m.props id
unfolding memory_graph
memory_graph-props m id = refl
