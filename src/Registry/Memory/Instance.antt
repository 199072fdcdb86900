-- ===== src/Registry/Memory/Instance.antt =====
-- The store in memory behind `Externals`, with codecs that read back what they wrote, and its laws.
use Prim.Native.String.{[] as empty, ◌∷◌ as add_char}
use common_data_layer.Prelude.{
  ℕ, zero, suc, String, ◌≡◌, refl, ◌⊎◌, Bool, true, false, Option, none, some, List, [], ◌∷◌, arith,
  str_eq, ltb, if◌then◌else◌,
}
use common_data_layer.Json.{Value, Items, null, string, array, nil, cons}
use common_data_layer.Exec.{ok, err}
use common_data_layer.Registry.Types.{Version, SchemaType, document_storage, timeseries, to_string}
use common_data_layer.Registry.Externals.{Externals}
use common_data_layer.Registry.Laws.{
  prop_of, vertex_list, properties_list, property_list, IsCodec, IsVersionOrder,
}
use common_data_layer.Registry.Memory.Store
use common_data_layer.Registry.Memory.Store.{
  Memory, EdgeEntry, add, edge_values, values_in, IsVertex,
}

-- An id as a text.
unfoldable pub unary : ℕ → String
unary zero = empty
unary (suc n) = add_char "i" (unary n)

unfoldable pub count : String → ℕ
count empty = 0
count (add_char c s) = suc (count s)

pub count-unary : (n : ℕ) → count (unary n) ≡ n
unfolding count unary
count-unary zero = refl
count-unary (suc n) = omega (arith, count-unary n)

-- A number, a text and a version as values.
from_ℕ : ℕ → Value
from_ℕ zero = null
from_ℕ (suc n) = array (cons (from_ℕ n) nil)

to_ℕ : Value → Option ℕ
to_ℕ null = some 0
to_ℕ (array (cons v nil)) = elim (to_ℕ v) [ none ↦ none | some n ↦ some (suc n) ]
to_ℕ v = none

to_ℕ-from_ℕ : (n : ℕ) → to_ℕ (from_ℕ n) ≡ some n
unfolding to_ℕ from_ℕ
to_ℕ-from_ℕ zero = refl
to_ℕ-from_ℕ (suc n) = rw (to_ℕ-from_ℕ n) refl

texts : List String → Items
texts [] = nil
texts (s ∷ ss) = cons (string s) (texts ss)

to_texts : Items → Option (List String)
to_texts nil = some []
to_texts (cons (string s) rest) = elim (to_texts rest) [ none ↦ none | some ss ↦ some (s ∷ ss) ]
to_texts xs = none

to_texts-texts : (ss : List String) → to_texts (texts ss) ≡ some ss
unfolding to_texts texts
to_texts-texts [] = refl
to_texts-texts (s ∷ ss) = rw (to_texts-texts ss) refl

unfoldable pub version_to_value : Version → Value
unfolding from_ℕ texts
version_to_value v = array (
    cons (from_ℕ v.major) (
      cons (from_ℕ v.minor)
        (cons (from_ℕ v.patch) (cons (array (texts v.pre)) (cons (array (texts v.build)) nil)))))

version_of :
    Option ℕ → Option ℕ → Option ℕ → Option (List String) → Option (List String) → Option Version
version_of (some a) (some b) (some c) (some p) (some q) =
    some (record { major = a; minor = b; patch = c; pre = p; build = q })
version_of a b c p q = none

unfoldable pub version_from_value : Value → Option Version
unfolding version_of to_ℕ to_texts
version_from_value (array (cons a (cons b (cons c (cons (array p) (cons (array q) nil)))))) =
    version_of (to_ℕ a) (to_ℕ b) (to_ℕ c) (to_texts p) (to_texts q)
version_from_value v = none

version_ok : (v : Version) → version_from_value (version_to_value v) ≡ some v
unfolding version_from_value version_to_value
version_ok v =
    rw
      (
        to_ℕ-from_ℕ v.major,
        to_ℕ-from_ℕ v.minor,
        to_ℕ-from_ℕ v.patch,
        to_texts-texts v.pre,
        to_texts-texts v.build,
      )
      refl

unfoldable pub version_le : Version → Version → Bool
version_le u v =
    if ltb u.major v.major
    then true
    else if ltb v.major u.major
    then false
    else if ltb u.minor v.minor
    then true
    else if ltb v.minor u.minor
    then false
    else if ltb v.patch u.patch
    then false
    else true

le_trans : (u v w : Version) → version_le u v ≡ true → version_le v w ≡ true → version_le u w ≡ true
unfolding version_le
le_trans u v w h k = ground arith

le_total : (u v : Version) → (version_le u v ≡ true) ⊎ (version_le v u ≡ true)
unfolding version_le
le_total u v = ground arith

le_refl : (v : Version) → version_le v v ≡ true
unfolding version_le
le_refl v = ground arith

unfoldable pub string_from_value : Value → Option String
string_from_value (string s) = some s
string_from_value v = none

unfoldable pub schema_type_from_value : Value → Option SchemaType
schema_type_from_value (string s) =
    if str_eq s "DocumentStorage"
    then some document_storage
    else if str_eq s "Timeseries"
    then some timeseries
    else none
schema_type_from_value v = none

schema_type_ok : (t : SchemaType) → schema_type_from_value (string (to_string t)) ≡ some t
unfolding schema_type_from_value
schema_type_ok document_storage = refl
schema_type_ok timeseries = refl

-- Every value but `null` compiles, every text but the empty one is a JMESPath expression, and one
-- text is a `Uuid`.
abbrev pub memory : Externals
memory = record {
  Db = Memory;
  transaction = λ m. ok tt;
  create_vertex = Store.create_vertex;
  create_vertex_from_type = Store.create_vertex_from_type;
  set_vertex_property = Store.set_vertex_property;
  create_edge = Store.create_edge;
  set_edge_property = Store.set_edge_property;
  get_vertices = λ id m. ok (vertex_list id (m.kind id));
  get_all_vertex_properties = λ id m. ok (properties_list id (m.kind id) (m.props id));
  get_vertex_properties = λ id name m. ok (property_list id (prop_of name (m.props id)));
  get_edge_properties = λ id t name m. ok (edge_values m id t name);
  get_neighbour_properties = λ id t m. ok (Store.get_neighbour_properties id t m);
  get_range_properties = λ t m. ok (Store.get_range_properties t m);
  get_range_property = λ t name m. ok (Store.get_range_property t name m);
  get_range_edges = λ t m. ok (Store.get_range_edges t m);
  string_from_value = string_from_value;
  schema_type_from_value = schema_type_from_value;
  version_from_value = version_from_value;
  version_to_value = version_to_value;
  version_le = version_le;
  any_version = "*";
  matches = λ req v. str_eq req "*";
  compiles = λ v. elim v [ null ↦ false | _ ↦ true ];
  jmespath_parse = λ s. if str_eq s "" then err "empty expression" else ok tt;
  uuid_parse = λ s. some (count s);
}

pub memory_codec : IsCodec memory
unfolding string_from_value
memory_codec = record {
  string_ok = λ s. refl;
  schema_type_ok = schema_type_ok;
  version_ok = version_ok;
}

pub memory_order : IsVersionOrder memory
memory_order = record {
  le_refl = le_refl;
  le_trans = le_trans;
  le_total = le_total;
  matches_any = λ v. refl;
}
