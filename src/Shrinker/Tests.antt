-- ===== src/Shrinker/Tests.antt =====
-- Runs of the shrinker on the documents of the test table of
-- crates/db-shrinker-postgres/src/main.rs, and the theorems at concrete documents.
use common_data_layer.Prelude.{
  ℕ, String, ◌≡◌, refl, sym, ap, ◌⊎◌, ◌==◌, if◌then◌else◌, arith, true, false, some, List, [], ◌∷◌,
}
use common_data_layer.Exec.{ok, err, ok-injective}
use common_data_layer.Json.{Value, object, end, field, bool, null, number, lookup, insert}
use common_data_layer.Shrinker.{Row, merge, minimize_document}
use common_data_layer.Shrinker.Paths.{get, writes}
use common_data_layer.Shrinker.Latest.{minimize_document-last}
use common_data_layer.Shrinker.Shrink.{Database, shrink_by_id}
use common_data_layer.Shrinker.Shrunk.{
  at_least, set_payload, IsDatabase, IsShrunk, shrink_by_id-IsShrunk,
}

abbrev success : Value → Value
success v = object (field "success" v end)

merge_nested :
    merge
      (success (object (field "a" (number "1") (field "b" (number "2") end))))
      (success (object (field "c" (number "3") end)))
    ≡ success
        (object (field "a" (number "1") (field "b" (number "2") (field "c" (number "3") end))))
unfolding merge lookup insert
merge_nested = refl

merge_null : merge (success (bool true)) (success null) ≡ success null
unfolding merge lookup insert
merge_null = refl

abbrev first : Row
first = record { version = 1; payload = success (bool false) }

abbrev second : Row
second = record { version = 2; payload = success (bool true) }

abbrev third : Row
third = record { version = 3; payload = object (field "other" null end) }

minimize_document-last_example :
    (d : Value) × (minimize_document (first ∷ second ∷ third ∷ []) ≡ some d)
    × (get ("success" ∷ []) d ≡ get ("success" ∷ []) second.payload)
unfolding lookup get writes
minimize_document-last_example =
    minimize_document-last ("success" ∷ []) (first ∷ []) (third ∷ []) second ((refl, tt), (tt, tt))
      refl (record { well_formed = ((refl, tt), (tt, tt)); unwritten = refl; unread = refl }, tt)

-- A database in memory: the rows of each object.
abbrev table : Database (ℕ → List Row)
table = record {
  changed_ids = λ s. ok (7 ∷ []);
  get_all_with_id = λ i s. ok (s i);
  transaction = λ s. ok tt;
  delete_older = λ i v s. ok (λ j. if j == i then at_least v (s j) else s j);
  update = λ d i v s. ok (λ j. if j == i then set_payload d v (s j) else s j);
  commit = λ s. ok tt;
}

abbrev table_laws : IsDatabase table
table_laws = record {
  rows = λ s. s;
  selected = λ i s found h. sym (ok-injective h);
  deleted = λ i v j s s' h. ap (λ x. x j) (sym (ok-injective h));
  updated = λ d i v j s s' h. ap (λ x. x j) (sym (ok-injective h));
}

abbrev versions : ℕ → List Row
versions j = first ∷ second ∷ third ∷ []

shrink_by_id-IsShrunk_example :
    (((shrink_by_id table 7 versions).0 ≡ ok tt)
      × IsShrunk table table_laws 7 versions (shrink_by_id table 7 versions).1)
    ⊎ ((e : String) × (shrink_by_id table 7 versions ≡ (err e, versions)))
shrink_by_id-IsShrunk_example = shrink_by_id-IsShrunk table table_laws 7 versions (ground arith)
