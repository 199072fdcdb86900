-- ===== src/QueryService/Requests.antt =====
-- Which requests crates/query-service/src/psql.rs refuses as invalid.
use common_data_layer.Prelude.{ℕ, String, ◌≡◌, refl, ◌∙◌, ◌≢◌, ◌⊎◌, inl, inr, List, All}
use common_data_layer.Exec.{Result, ok, err, Result-cases}
use common_data_layer.Fallible.{and_then, collect_map, collect_map-All}
use common_data_layer.QueryService.{
  World, Status, invalid_argument, Argument, Row, ids, connect, make_query, query_multiple,
  latest_of_ids, collect_id_payload_rows,
}

err-only :
    (r s : Status)
    → ◌≡◌ {A = Result Status (List (String × String))} (err r) (err s)
    → ◌≡◌ {A = Result Status (List Row)} (err r) (err s)
err-only r s h = cc

module _ (w : World) where
  abbrev pub IsUuid : String → Type 0
  IsUuid text = (u : ℕ) × (w.parse_uuid text ≡ ok u)

  make_query-not_invalid :
      (query : String) (args : Argument) (e : String)
      → make_query w query args ≢ err (invalid_argument e)
  unfolding make_query connect
  make_query-not_invalid query args e h = elim (Result-cases w.get_connection) [
    | inr (r, down) ↦ cc (rw (down, make_query, connect) at h)
    | inl (u, up) ↦ elim (Result-cases (w.prepare query)) [
      | inr (r, refused) ↦ cc (rw (up, refused, make_query, connect) at h)
      | inl (v, prepared) ↦ elim (Result-cases (w.query query args)) [
        | inr (r, failed) ↦ cc (rw (up, prepared, failed, make_query, connect) at h)
        | inl (rows, found) ↦ cc (rw (up, prepared, found, make_query, connect) at h)
      ]
    ]
  ]

  -- What follows the query adds no error.
  rows_reply : List ℕ → String → Result Status (List (String × String))
  rows_reply uuids schema =
      and_then (make_query w (latest_of_ids schema) (ids uuids))
        (λ rows. ok (collect_id_payload_rows w rows))

  rows_reply-not_invalid :
      (uuids : List ℕ) (schema e : String) → rows_reply uuids schema ≢ err (invalid_argument e)
  unfolding rows_reply
  rows_reply-not_invalid uuids schema e h =
      elim (Result-cases (make_query w (latest_of_ids schema) (ids uuids))) [
        | inl (rows, f) ↦ cc (rw (f, rows_reply) at h)
        | inr (r, f) ↦
            make_query-not_invalid (latest_of_ids schema) (ids uuids) e
              (f ∙ err-only r (invalid_argument e) (rw (f, rows_reply) at h))
      ]

  -- A request for objects is refused as invalid just when one of its ids is not a UUID, whatever the
  -- database does: either all ids are UUIDs and no answer is of that kind, or one is not and the
  -- answer is.
  pub query_multiple-invalid :
      (schema : String) (object_ids : List String)
      → (All IsUuid object_ids
          × ((e : String) → query_multiple w schema object_ids ≢ err (invalid_argument e)))
        ⊎ ((All IsUuid object_ids → ⊥)
            × ((e : String) × (query_multiple w schema object_ids ≡ err (invalid_argument e))))
  unfolding query_multiple rows_reply
  query_multiple-invalid schema object_ids =
      let each = collect_map-All w.parse_uuid object_ids in
      elim (Result-cases (collect_map w.parse_uuid object_ids)) [
        | inl (uuids, parsed) ↦ inl (
          each.0 (uuids, parsed),
          λ e h. rows_reply-not_invalid uuids schema e (rw (parsed, query_multiple) at h),
        )
        | inr (e, bad) ↦ inr (
          λ all. let (uuids, parsed) = each.1 all in cc (bad, parsed),
          (e, rw (bad, query_multiple) refl),
        )
      ]
