-- ===== src/Json.antt =====
-- serde_json's `Value` as the services use it (crates/db-shrinker-postgres, crates/schema-registry,
-- crates/command-service): a tree whose objects are maps from texts. A number is kept by its text.
-- An object is the list of its fields, in the map's own order, which the code never depends on.
use common_data_layer.Prelude.{
  String, ◌≡◌, refl, Bool, Option, none, some, arith, str_eq, str_eq_iff, if◌then◌else◌,
}

mutual
  pub data Value : Type 0 where
    null : Value
    bool : Bool → Value
    number : String → Value
    string : String → Value
    array : Items → Value
    object : Fields → Value

  pub data Items : Type 0 where
    nil : Items
    cons : Value → Items → Items

  pub data Fields : Type 0 where
    end : Fields
    field : String → Value → Fields → Fields

-- `map.get(key)`
unfoldable pub lookup : String → Fields → Option Value
lookup k end = none
lookup k (field j v rest) = if str_eq j k then some v else lookup k rest

-- `map.insert(key, value)`: a present key keeps its place, a new one is added.
unfoldable pub insert : String → Value → Fields → Fields
insert k v end = field k v end
insert k v (field j w rest) = if str_eq j k then field j v rest else field j w (insert k v rest)

-- A map holds no key twice.
abbrev pub Distinct : Fields → Type 0
Distinct end = Unit {0}
Distinct (field k v rest) = (lookup k rest ≡ none) × Distinct rest

pub lookup-insert :
    (k j : String) (v : Value) (m : Fields)
    → lookup j (insert k v m) ≡ (if str_eq k j then some v else lookup j m)
unfolding lookup insert
lookup-insert k j v end = refl
lookup-insert k j v (field i w rest) =
    ground (arith, str_eq_iff k j, str_eq_iff i k, str_eq_iff i j, lookup-insert k j v rest)

pub insert-Distinct : (k : String) (v : Value) (m : Fields) → Distinct m → Distinct (insert k v m)
unfolding lookup insert
insert-Distinct k v end d = (refl, tt)
insert-Distinct k v (field j w rest) d =
    ground (
      arith,
      str_eq_iff j k,
      str_eq_iff k j,
      lookup-insert k j v rest,
      insert-Distinct k v rest d.1,
    )

-- Maps hold no key twice, at every depth.
abbrev mutual
  pub WellFormed : Value → Type 0
  WellFormed null = Unit {0}
  WellFormed (bool b) = Unit {0}
  WellFormed (number n) = Unit {0}
  WellFormed (string s) = Unit {0}
  WellFormed (array xs) = Unit {0}
  WellFormed (object m) = Distinct m × AllFields m

  pub AllFields : Fields → Type 0
  AllFields end = Unit {0}
  AllFields (field k v rest) = WellFormed v × AllFields rest
