-- ===== src/Registry/Memory/Store.antt =====
-- The contents of a store in memory: the type and the properties of each vertex, the edges and the
-- values of their properties.
use common_data_layer.Prelude.{
  ℕ, zero, suc, ◌+◌, ◌≤◌, String, ◌≡◌, refl, Bool, true, false, ◌&&◌, Option, none, some, List, [],
  ◌∷◌, ◌++◌, arith, str_eq, ◌==◌, if◌then◌else◌, All, All-map, Bool-cases, inl, inr,
}
use common_data_layer.Json.{Value}
use common_data_layer.Exec.{Result, ok}
use common_data_layer.Registry.Externals.{
  IndraVertex, NamedProperty, VertexProperties, VertexProperty, EdgeKey, EdgeProperty,
  EdgeProperties,
}
use common_data_layer.Registry.Storage.{left}
use common_data_layer.Registry.Laws.{prop_of, properties_list, property_list}

-- One property of one edge.
pub record EdgeEntry : Type 0 where
  pub key : EdgeKey
  pub name : String
  pub value : Value

abbrev pub IsVertex : (ℕ → Option String) → ℕ → Type 0
IsVertex kind id = (t : String) × (kind id ≡ some t)

pub record Memory : Type 0 where
  pub kind : ℕ → Option String
  pub props : ℕ → List NamedProperty
  pub links : List EdgeKey
  pub entries : List EdgeEntry
  -- No id from here on is taken.
  pub next : ℕ
  pub fresh : (j : ℕ) → next ≤ j → kind j ≡ none
  pub ended : All (λ (e : EdgeEntry). IsVertex kind e.key.inbound_id) entries

unfoldable pub empty : Memory
empty = record {
  kind = λ j. none;
  props = λ j. [];
  links = [];
  entries = [];
  next = 0;
  fresh = λ j h. refl;
  ended = tt;
}

abbrev pub with_vertex : IndraVertex → (ℕ → Option String) → ℕ → Option String
with_vertex v kind j = if v.id == j then some v.t else kind j

pub with_vertex-IsVertex :
    (v : IndraVertex) (kind : ℕ → Option String) (j : ℕ)
    → IsVertex kind j
    → IsVertex (with_vertex v kind) j
with_vertex-IsVertex v kind j h = elim (Bool-cases (v.id == j)) [
  | inl e ↦ (v.t, rw e refl)
  | inr e ↦ (h.0, rw e h.1)
]

pub with_vertex_fresh :
    (v : IndraVertex) (m : Memory) (j : ℕ) → m.next + suc v.id ≤ j → with_vertex v m.kind j ≡ none
with_vertex_fresh v m j h = ground (arith, m.fresh j)

unfoldable pub add : IndraVertex → Memory → Memory
add v m = record {
  kind = with_vertex v m.kind;
  props = λ j. if v.id == j then [] else m.props j;
  links = m.links;
  entries = m.entries;
  next = m.next + suc v.id;
  fresh = with_vertex_fresh v m;
  ended = All-map _ _ (λ e. with_vertex-IsVertex v m.kind e.key.inbound_id) m.entries m.ended;
}

unfoldable pub create_vertex : IndraVertex → Memory → Result String Bool × Memory
create_vertex v m = elim (m.kind v.id) [ some t ↦ (ok false, m) | none ↦ (ok true, add v m) ]

unfoldable pub create_vertex_from_type : String → Memory → Result String ℕ × Memory
create_vertex_from_type t m = (ok m.next, add (record { id = m.next; t = t }) m)

unfoldable pub with_property : ℕ → String → Value → Memory → Memory
with_property id name value m = record m {
  props = λ j.
      if id == j then record { name = name; value = value } ∷ left name (m.props j) else m.props j;
}

unfoldable pub set_vertex_property : ℕ → String → Value → Memory → Result String (Unit {0}) × Memory
set_vertex_property id name value m = elim (m.kind id) [
  | none ↦ (ok tt, m)
  | some t ↦ (ok tt, with_property id name value m)
]

unfoldable pub with_link : EdgeKey → Memory → Memory
with_link key m = record m { links = key ∷ m.links }

unfoldable pub create_edge : EdgeKey → Memory → Result String Bool × Memory
create_edge key m = elim (m.kind key.outbound_id) [
  | none ↦ (ok false, m)
  | some s ↦ elim (m.kind key.inbound_id) [
    | none ↦ (ok false, m)
    | some t ↦ (ok true, with_link key m)
  ]
]

unfoldable pub set_edge_at :
    (key : EdgeKey) (name : String) (value : Value) (m : Memory) (k : Option String)
    → m.kind key.inbound_id ≡ k
    → Memory
set_edge_at key name value m none e = m
set_edge_at key name value m (some t) e = record m {
  entries = record { key = key; name = name; value = value } ∷ m.entries;
  ended = ((t, e), m.ended);
}

unfoldable pub set_edge_property :
    EdgeKey → String → Value → Memory → Result String (Unit {0}) × Memory
set_edge_property key name value m =
    (ok tt, set_edge_at key name value m (m.kind key.inbound_id) refl)

abbrev pub values_in : ℕ → String → String → List EdgeEntry → List EdgeProperty
values_in o t name [] = []
values_in o t name (e ∷ es) =
    let rest = values_in o t name es in
    if e.key.outbound_id == o && str_eq e.key.t t && str_eq e.name name
    then record { key = e.key; value = e.value } ∷ rest
    else rest

abbrev pub edge_values : Memory → ℕ → String → String → List EdgeProperty
edge_values m o t name = values_in o t name m.entries

-- The ids below a bound whose vertex has the type.
ids_of_type : String → (ℕ → Option String) → ℕ → List ℕ
ids_of_type t kind zero = []
ids_of_type t kind (suc n) =
    let rest = ids_of_type t kind n in
    elim (kind n) [ none ↦ rest | some u ↦ if str_eq u t then n ∷ rest else rest ]

properties_at : Memory → List ℕ → List VertexProperties
properties_at m [] = []
properties_at m (id ∷ ids) = properties_list id (m.kind id) (m.props id) ++ properties_at m ids

property_at : String → Memory → List ℕ → List VertexProperty
property_at name m [] = []
property_at name m (id ∷ ids) =
    property_list id (prop_of name (m.props id)) ++ property_at name m ids

inbound_of : ℕ → String → List EdgeKey → List ℕ
inbound_of o t [] = []
inbound_of o t (k ∷ ks) =
    let rest = inbound_of o t ks in
    if k.outbound_id == o && str_eq k.t t then k.inbound_id ∷ rest else rest

props_of_edge : EdgeKey → List EdgeEntry → List NamedProperty
props_of_edge k [] = []
props_of_edge k (e ∷ es) =
    let rest = props_of_edge k es in
    if e.key.outbound_id == k.outbound_id && str_eq e.key.t k.t && e.key.inbound_id == k.inbound_id
    then record { name = e.name; value = e.value } ∷ rest
    else rest

edges_of_type : String → List EdgeEntry → List EdgeKey → List EdgeProperties
unfolding props_of_edge
edges_of_type t es [] = []
edges_of_type t es (k ∷ ks) =
    let rest = edges_of_type t es ks in
    if str_eq k.t t then record { key = k; props = props_of_edge k es } ∷ rest else rest

unfoldable pub get_neighbour_properties : ℕ → String → Memory → List VertexProperties
unfolding inbound_of properties_at
get_neighbour_properties id t m = properties_at m (inbound_of id t m.links)

unfoldable pub get_range_properties : String → Memory → List VertexProperties
unfolding ids_of_type properties_at
get_range_properties t m = properties_at m (ids_of_type t m.kind m.next)

unfoldable pub get_range_property : String → String → Memory → List VertexProperty
unfolding ids_of_type property_at
get_range_property t name m = property_at name m (ids_of_type t m.kind m.next)

unfoldable pub get_range_edges : String → Memory → List EdgeProperties
unfolding edges_of_type
get_range_edges t m = edges_of_type t m.entries m.links
