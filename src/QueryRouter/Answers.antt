-- ===== src/QueryRouter/Answers.antt =====
-- The maps of JSON that the handlers of crates/query-router/src/handler.rs reply with.
use common_data_layer.Prelude.{String, ◌≡◌, refl, sym, ap, ◌∙◌, List, [], ◌∷◌, map, inl, inr}
use common_data_layer.Json.{Value}
use common_data_layer.Exec.{Result, ok, Result-cases, ok-injective}
use common_data_layer.Fallible.{and_then-ok, collect_map}
use common_data_layer.QueryRouter.{World, json_entry, byte_map_to_json_map}

module _ (w : World) where
  -- An entry as the pair of its key and what its bytes parse to.
  abbrev pub parsed : String × String → String × Result String Value
  parsed entry = (entry.0, w.from_slice entry.1)

  abbrev pub found : String × Value → String × Result String Value
  found entry = (entry.0, ok entry.1)

  json_entry-parsed :
      (entry : String × String) (json : String × Value)
      → json_entry w entry ≡ ok json
      → found json ≡ parsed entry
  unfolding json_entry
  json_entry-parsed entry json h = elim (Result-cases (w.from_slice entry.1)) [
    | inl (v, e) ↦ cc (e, rw (e, json_entry) at h)
    | inr (r, e) ↦ cc (rw (e, json_entry) at h)
  ]

  -- A map of bytes that becomes a map of JSON keeps its keys, and each value is what its bytes parse
  -- to; so every value parses.
  pub byte_map_to_json_map-parsed :
      (values : List (String × String)) (json : List (String × Value))
      → byte_map_to_json_map w values ≡ ok json
      → map found json ≡ map parsed values
  unfolding byte_map_to_json_map collect_map
  byte_map_to_json_map-parsed [] json h = cc
  byte_map_to_json_map-parsed (entry ∷ values) json h =
      let (first, e, h₁) = and_then-ok (json_entry w entry) _ json h in
      let (rest, es, h₂) = and_then-ok (collect_map (json_entry w) values) _ json h₁ in
      sym (ap (map found) (ok-injective h₂))
      ∙ rw (json_entry-parsed entry first e, byte_map_to_json_map-parsed values rest es) refl
