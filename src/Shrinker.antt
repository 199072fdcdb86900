-- ===== src/Shrinker.antt =====
-- crates/db-shrinker-postgres/src/main.rs: the merge of the versions of one document.
-- A row of `get_all_with_id` is its version and its payload, oldest first.
pub mod Paths
pub mod Latest
pub mod Shrink
pub mod Shrunk
mod Tests
use mathlib.Core.List.{foldl}
use common_data_layer.Prelude.{
  ℕ, ◌≡◌, refl, Option, none, some, List, [], ◌∷◌, arith, str_eq, str_eq_iff, String, map,
}
use common_data_layer.Json.{
  Value, Fields, null, bool, number, string, array, object, end, field, lookup, insert, Distinct,
  lookup-insert,
}

-- `a.entry(k).or_insert(JsonValue::Null)`
abbrev or_null : Option Value → Value
or_null none = null
or_null (some v) = v

mutual
  pub merge : Value → Value → Value
  merge (object a) (object b) = object (merge_fields a b)
  merge a b = b

  pub merge_fields : Fields → Fields → Fields
  merge_fields a end = a
  merge_fields a (field k v rest) = merge_fields (insert k (merge (or_null (lookup k a)) v) a) rest

pub record Row : Type 0 where
  pub version : ℕ
  pub payload : Value

-- `rows.into_iter().map(..).fold_first(..)`
fold_first : List Value → Option Value
fold_first [] = none
fold_first (d ∷ ds) = some (foldl merge d ds)

pub minimize_document : List Row → Option Value
unfolding fold_first
minimize_document rows = fold_first (map (λ r. r.payload) rows)
