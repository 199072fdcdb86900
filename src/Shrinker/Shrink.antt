-- ===== src/Shrinker/Shrink.antt =====
-- The shrinking of the objects of a database, crates/db-shrinker-postgres/src/main.rs: `shrink_by_id`
-- and the loop of `main`. The statements are parameters.
use common_data_layer.Prelude.{ℕ, String, Option, none, some, List, [], ◌∷◌}
use common_data_layer.Json.{Value}
use common_data_layer.Exec.{Result, ok, err, ok_or, Exec, pure, lift, ◌>>=◌, ◌>>◌}
use common_data_layer.Fallible.{and_then}
use common_data_layer.Shrinker.{Row, minimize_document}

-- The statements of the client and of its transactions; what a statement of a transaction gives are
-- the contents within it.
pub record Database (S : Type 0) : Type 0 where
  -- The ids of more than one row.
  pub changed_ids : S → Result String (List ℕ)
  -- The rows of an object, by ascending version.
  pub get_all_with_id : ℕ → S → Result String (List Row)
  pub transaction : S → Result String (Unit {0})
  pub delete_older : (object_id version : ℕ) → S → Result String S
  pub update : Value → (object_id version : ℕ) → S → Result String S
  pub commit : S → Result String (Unit {0})

-- `rows.last()`
abbrev pub last : List Row → Option Row
last [] = none
last (r ∷ []) = some r
last (r ∷ q ∷ rows) = last (q ∷ rows)

module _ {S : Type 0} (db : Database S) where
  -- The transaction, up to its commit.
  unfoldable pub replace_rows : ℕ → ℕ → Value → S → Result String S
  replace_rows object_id version document s = and_then (db.transaction s) (λ u.
      and_then (db.delete_older object_id version s) (λ s₁.
        and_then (db.update document object_id version s₁)
          (λ s₂. and_then (db.commit s₂) (λ v. ok s₂))))

  -- The new contents, or an error. A transaction that was not committed changes nothing.
  unfoldable pub shrunk : ℕ → S → Result String S
  shrunk object_id s = and_then (db.get_all_with_id object_id s) (λ rows.
      and_then (ok_or (last rows) "No rows with selected ID, did database change mid-shrink?")
        (λ newest.
          and_then (ok_or (minimize_document rows) "Failed minimizing document")
            (λ document. replace_rows object_id newest.version document s)))

  abbrev pub committed : S → Result String S → Result String (Unit {0}) × S
  committed s (ok s') = (ok tt, s')
  committed s (err e) = (err e, s)

  unfoldable pub shrink_by_id : ℕ → Exec S String (Unit {0})
  shrink_by_id object_id s = committed s (shrunk object_id s)

  -- The loop of `main`, which ends at the first error.
  unfoldable pub shrink_each : List ℕ → Exec S String (Unit {0})
  shrink_each [] = pure tt
  shrink_each (object_id ∷ ids) = do shrink_by_id object_id; shrink_each ids

  unfoldable pub shrink : Exec S String (Unit {0})
  shrink s = (do ids ← lift (db.changed_ids s); shrink_each ids) s
